-- ===== src/Cpu/Or1ksim/Dispatch.antt =====
-- `hw_interrupt_install` and `usr_handle` of cpu/or1ksim/interrupt.c together.
use Prim.Native.Nat.{bit_and, bit_or}
use fos.Prelude.{
  ℕ, zero, suc, ◌+◌, ◌^◌, ◌<◌, ◌≤◌, ◌≡◌, ◌≢◌, refl, inl, inr, Bool, true, false, not, arith, ◌==◌,
  ltb, Bool-cases, ==_ne, ==_refl, ==_iff, ap, sym, ◌∙◌, update,
}
use fos.LinkedList.{null}
use fos.PrioMap.Bytes.{each, each-at, eqb, eqb_sound}
use fos.Cpu.Or1ksim.{
  Cpu, Ihnd, handle_one, handle_from, usr_handle, hw_interrupt_install, max_int_handlers,
}

bit_test : ℕ → ℕ → Bool
bit_test v i = eqb (bit_and (2 ^ v) (2 ^ i) == 0) (not (v == i))

bit_table : each (λ v. each (bit_test v) 32) 32 ≡ true
unfolding each bit_test eqb
bit_table = refl

-- Two powers of two share a bit only if they are the same.
bit_and-powers : (v i : ℕ) → v < 32 → i < 32 → (bit_and (2 ^ v) (2 ^ i) == 0) ≡ not (v == i)
unfolding bit_test
bit_and-powers v i hv hi =
    eqb_sound (bit_and (2 ^ v) (2 ^ i) == 0) (not (v == i))
      (each-at (bit_test v) i 32 hi (each-at (λ v. each (bit_test v) 32) v 32 hv bit_table))

module _ (call : ℕ → ℕ → Cpu → Cpu) (v : ℕ) (lt : v < 32) where
  handle_one-miss : (i : ℕ) (c : Cpu) → i < 32 → (v == i) ≡ false → handle_one call (2 ^ v) i c ≡ c
  unfolding handle_one
  handle_one-miss i c hi far = ground (arith, far, bit_and-powers v i lt hi)

  handle_one-hit :
      (c : Cpu)
      → (c.int_handlers v).handler ≢ null
      → handle_one call (2 ^ v) v c ≡ call (c.int_handlers v).handler (c.int_handlers v).arg c
  unfolding handle_one
  handle_one-hit c ne =
      ground (arith, bit_and-powers v v lt lt, ==_refl v, ==_ne (c.int_handlers v).handler null ne)

  -- Past the one bit that is set, no handler runs.
  handle_from-rest : (n i : ℕ) (c : Cpu) → v < i → i + n ≤ 32 → handle_from call (2 ^ v) n i c ≡ c
  unfolding handle_from
  handle_from-rest zero i c past le = refl
  handle_from-rest (suc n) i c past le =
      rw (handle_one-miss i c (omega arith) (ground arith))
        (handle_from-rest n (i + 1) c (omega arith) (omega arith))

  handle_from-hit :
      (n i : ℕ) (c : Cpu)
      → i ≤ v
      → v < i + n
      → i + n ≤ 32
      → (c.int_handlers v).handler ≢ null
      → handle_from call (2 ^ v) n i c ≡ call (c.int_handlers v).handler (c.int_handlers v).arg c
  unfolding handle_from
  handle_from-hit zero i c before below le ne = absurd (omega arith)
  handle_from-hit (suc n) i c before below le ne = elim (Bool-cases (v == i)) [
    | inl here ↦
        let same : v ≡ i = (==_iff v i).0 here in
        rw (ap (λ j. handle_one call (2 ^ v) j c) (sym same), handle_one-hit c ne)
          (handle_from-rest n (i + 1) (call (c.int_handlers v).handler (c.int_handlers v).arg c)
            (omega arith) (omega arith))
    | inr far ↦
        rw (handle_one-miss i c (omega arith) far)
          (handle_from-hit n (i + 1) c (ground (arith, far)) (omega arith) (omega arith) ne)
  ]

  usr_handle-one :
      (c : Cpu) (x : Ihnd)
      → c.picsr ≡ 2 ^ v
      → c.int_handlers v ≡ x
      → x.handler ≢ null
      → usr_handle call c ≡ record (call x.handler x.arg c) { picsr = 0 }
  unfolding usr_handle
  usr_handle-one c x e at ne =
      ap (λ (s : Cpu). record s { picsr = 0 })
        (ap (λ s. handle_from call s 32 0 c) e
          ∙ handle_from-hit 32 0 c (omega arith) (omega arith) (omega arith)
              (λ z. ne (ap (λ (y : Ihnd). y.handler) (sym at) ∙ z))
          ∙ ap (λ (y : Ihnd). call y.handler y.arg c) at)

-- After a handler is installed for one of the 32 interrupts, and with the status of that interrupt
-- alone, `usr_handle` runs that handler once with its argument, no other one, and clears the status.
pub usr_handle-installed :
    (call : ℕ → ℕ → Cpu → Cpu) (vect handler arg : ℕ) (c : Cpu)
    → vect < max_int_handlers
    → handler ≢ null
    → c.picsr ≡ 2 ^ vect
    → usr_handle call (hw_interrupt_install vect handler arg c).1
      ≡ record (call handler arg (hw_interrupt_install vect handler arg c).1) { picsr = 0 }
unfolding hw_interrupt_install
usr_handle-installed call vect handler arg c lt ne e =
    let inside : ltb vect max_int_handlers ≡ true = ground arith in
    let c' : Cpu = record c {
      int_handlers = update c.int_handlers vect (record { handler = handler; arg = arg });
      picmr = bit_or c.picmr (2 ^ vect);
    } in
    rw inside (
      usr_handle-one call vect lt c' (record { handler = handler; arg = arg }) e
        (rw (==_refl vect) refl) ne)
