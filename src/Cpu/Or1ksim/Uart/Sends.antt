-- ===== src/Cpu/Or1ksim/Uart/Sends.antt =====
-- What cpu/or1ksim/uart.c sends.
use Prim.Native.Nat.{bit_and}
use mathlib.Core.List.{append_assoc, append-nil}
use fos.Prelude.{
  ℕ, zero, suc, ◌+◌, ◌<◌, ◌≡◌, ◌∙◌, sym, ap, refl, inl, inr, Bool-cases, some, List, [], ◌∷◌, ◌++◌,
  arith, ◌==◌, if◌then◌else◌, length,
}
use fos.Libc.{Memory}
use fos.Libc.Strings.{HoldsString}
use fos.Cpu.Or1ksim.Uart.{
  Access, read_reg, write_reg, Device, wait_for, uart_putc, uart_print_str, uart_tx, uart_lsr,
  uart_lsr_thre, both_empty,
}

-- The bytes that have been written to the transmitter, the first first.
abbrev pub sent : List Access → List ℕ
sent [] = []
sent (read_reg r ∷ log) = sent log
sent (write_reg r v ∷ log) = if r == uart_tx then sent log ++ v ∷ [] else sent log

-- A newline is followed by a carriage return.
abbrev pub wire : ℕ → List ℕ
wire c = if c == 10 then 10 ∷ 13 ∷ [] else c ∷ []

abbrev pub wires : List ℕ → List ℕ
wires [] = []
wires (c ∷ cs) = wire c ++ wires cs

-- The log after `i` more reads of the line status.
abbrev pub polls : ℕ → List Access → List Access
polls zero log = log
polls (suc i) log = polls i (read_reg uart_lsr ∷ log)

-- The transmitter is empty again within fewer than `n` reads of the line status, whatever was done
-- before.
abbrev pub Prompt : Device → ℕ → Type 0
Prompt device n =
    (log : List Access)
    → (i : ℕ) × (i < n)
      × (bit_and (device (polls i log) uart_lsr) uart_lsr_thre ≡ uart_lsr_thre)
      × (bit_and (device (polls i log) uart_lsr) both_empty ≡ both_empty)

module _ (device : Device) where
  wait_for_lem :
      (bits fuel i : ℕ) (log : List Access)
      → i < fuel
      → bit_and (device (polls i log) uart_lsr) bits ≡ bits
      → (log' : List Access) × (wait_for device bits fuel log ≡ some log') × (sent log' ≡ sent log)
  unfolding wait_for
  wait_for_lem bits zero i log lt shown = absurd (omega arith)
  wait_for_lem bits (suc fuel) zero log lt shown =
      (read_reg uart_lsr ∷ log, ground (arith, shown), refl)
  wait_for_lem bits (suc fuel) (suc i) log lt shown =
      elim (Bool-cases (bit_and (device log uart_lsr) bits == bits)) [
        | inl now ↦ (read_reg uart_lsr ∷ log, ground (arith, now), refl)
        | inr later ↦
            let (log', e, s) =
              wait_for_lem bits fuel i (read_reg uart_lsr ∷ log) (omega arith) shown in
            (log', ground (arith, later, e), s)
      ]

  module _ (fuel : ℕ) (prompt : Prompt device fuel) where
    wait_thre :
        (log : List Access)
        → (log' : List Access) × (wait_for device uart_lsr_thre fuel log ≡ some log')
          × (sent log' ≡ sent log)
    wait_thre log =
        let (i, lt, thre, both) = prompt log in wait_for_lem uart_lsr_thre fuel i log lt thre

    wait_both :
        (log : List Access)
        → (log' : List Access) × (wait_for device both_empty fuel log ≡ some log')
          × (sent log' ≡ sent log)
    wait_both log =
        let (i, lt, thre, both) = prompt log in wait_for_lem both_empty fuel i log lt both

    -- `uart_putc` returns, and has sent its byte, with a carriage return behind a newline.
    pub uart_putc-wire :
        (c : ℕ) (log : List Access)
        → (log' : List Access) × (uart_putc device fuel c log ≡ some log')
          × (sent log' ≡ sent log ++ wire c)
    unfolding uart_putc
    uart_putc-wire c log =
        let (l1, e1, s1) = wait_thre log in
        elim (Bool-cases (c == 10)) [
          | inl newline ↦
              let (l2, e2, s2) = wait_thre (write_reg uart_tx c ∷ l1) in
              let (l3, e3, s3) = wait_both (write_reg uart_tx 13 ∷ l2) in
              (
                l3,
                ground (arith, newline, e1, e2, e3),
                s3
                    ∙ ap (λ xs. xs ++ 13 ∷ []) (s2 ∙ ap (λ xs. xs ++ c ∷ []) s1)
                    ∙ append_assoc (sent log) (c ∷ []) (13 ∷ [])
                    ∙ ap (λ ws. sent log ++ ws) (ground (arith, newline)),
              )
          | inr plain ↦
              let (l3, e3, s3) = wait_both (write_reg uart_tx c ∷ l1) in
              (
                l3,
                ground (arith, plain, e1, e3),
                s3 ∙ ap (λ xs. xs ++ c ∷ []) s1 ∙ ground (arith, plain),
              )
        ]

    -- `uart_print_str` returns on a string, and has sent its bytes.
    pub uart_print_str-wires :
        (mem : Memory) (rounds p : ℕ) (xs : List ℕ) (log : List Access)
        → HoldsString mem p xs
        → length xs < rounds
        → (log' : List Access) × (uart_print_str device fuel mem rounds p log ≡ some log')
          × (sent log' ≡ sent log ++ wires xs)
    unfolding uart_print_str
    uart_print_str-wires mem zero p xs log h lt = absurd (omega arith)
    uart_print_str-wires mem (suc rounds) p [] log h lt =
        (log, ground arith, sym (append-nil (sent log)))
    uart_print_str-wires mem (suc rounds) p (x ∷ xs) log (e, nz, h) lt =
        let (l1, e1, s1) = uart_putc-wire x log in
        let (l2, e2, s2) = uart_print_str-wires mem rounds (p + 1) xs l1 h (omega arith) in
        (
          l2,
          ground (arith, e, nz, e1, e2),
          s2 ∙ ap (λ ys. ys ++ wires xs) s1 ∙ append_assoc (sent log) (wire x) (wires xs),
        )
