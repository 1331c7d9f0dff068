-- ===== src/System/Units.antt =====
-- What a call does to the units of the semaphores and to the tasks that wait for them.
use fos.Prelude.{
  ℕ, ◌+◌, ◌-◌, ◌<◌, ◌≤◌, ◌≡◌, refl, inl, inr, true, false, List, [], ◌∷◌, ◌++◌, arith, ◌==◌,
  Bool-cases, update, length, length-append, ap, ==_iff, ==_ne, ◌∙◌, if◌then◌else◌,
}
use fos.LinkedList.{Addr}
use fos.LinkedList.Shape.{Lists}
use fos.Kernel.{Kernel, Sem, msg_head}
use fos.Sched.Fetch.{Highest}
use fos.Sched.Switch.{switch_to}
use fos.System.{Layout, Call, do_sem_get, do_sem_put}
use fos.Sched.Block.{blocked, woken}
use fos.Semaphore.{set_sem}
use fos.System.Facts.{Facts}

abbrev pub gets_of : Addr → Call → ℕ
gets_of s (do_sem_get a) = if a == s then 1 else 0
gets_of s c = 0

abbrev pub puts_of : Addr → Call → ℕ
puts_of s (do_sem_put a) = if a == s then 1 else 0
puts_of s c = 0

-- A get takes a unit or adds a task that waits, a put adds a unit or takes such a task, and no other
-- call changes their difference.
pub record Balances (o : Layout) (c : Call) (k : Kernel) (lists : Lists) (k' : Kernel)
    (lists' : Lists) : Type 0 where
  pub balance :
      (s : Addr)
      → o.sem s ≡ true
      → (k.sem s).count + puts_of s c ≤ 0xffffffff
      → (k'.sem s).count + gets_of s c + length (lists s)
        ≡ (k.sem s).count + puts_of s c + length (lists' s)

module _ (o : Layout) (s : Addr) (hs : o.sem s ≡ true) where
  pub sem-mutex : (m : Addr) → o.mutex m ≡ true → (s == m) ≡ false
  sem-mutex m hm = ==_ne s m (λ e. ground (arith, hs, (o.mutex_head m hm).3, ap o.sem e))

  pub sem-queue : (q : Addr) → o.queue q ≡ true → (s == q) ≡ false
  sem-queue q hq = ==_ne s q (o.apart s q hs hq)

  pub sem-messages : (q : Addr) → o.queue q ≡ true → (s == msg_head q) ≡ false
  sem-messages q hq =
      ==_ne s (msg_head q)
        (λ e. ground (arith, (o.sem_head s hs).2, (o.queue_head q hq).4, ap o.stores e))

-- A call that touches no semaphore.
pub level :
    {o : Layout} {c : Call} {k : Kernel} {lists : Lists} {k' : Kernel} {lists' : Lists}
    → ((s : Addr) → gets_of s c ≡ 0)
    → ((s : Addr) → puts_of s c ≡ 0)
    → k'.sem ≡ k.sem
    → ((s : Addr) → o.sem s ≡ true → lists' s ≡ lists s)
    → Balances o c k lists k' lists'
level g p e same = record {
  balance = λ s hs max.
      omega (arith, g s, p s, ap (λ (f : Addr → Sem). (f s).count) e, ap length (same s hs));
}

switched_sem : (t : Addr) (k : Kernel) → (switch_to t k).sem ≡ k.sem
switched_sem t k = elim (Bool-cases (t == k.new_task)) [ inl e ↦ rw e refl | inr ne ↦ rw ne refl ]

pub turned :
    {o : Layout} {lists : Lists} {q : ℕ} {t : Addr} {ts : List Addr}
    → Highest lists q t ts
    → {c : Call} {k k1 : Kernel} {lists0 : Lists} → Facts o k1 lists
    → Balances o c k lists0 k1 lists
    → (k2 : Kernel) → k2.sem ≡ k1.sem
    → Balances o c k lists0 (switch_to t k2) (update lists (q + 1) (ts ++ t ∷ []))
turned {o} {lists} {q} {t} {ts} h f b k2 same = record {
  balance = λ s hs max.
      let far : update lists (q + 1) (ts ++ t ∷ []) s ≡ lists s =
        ground (arith, h.in_range, o.sem_head s hs) in
      omega (
        arith,
        b.balance s hs max,
        ap length far,
        ap (λ (f : Addr → Sem). (f s).count) (switched_sem t k2 ∙ same),
      );
}

module _ {o : Layout} {k : Kernel} {lists : Lists} (s : Addr) (hs : o.sem s ≡ true) where
  pub taken_units :
      0 < (k.sem s).count
      → Balances o
          (do_sem_get s)
          k
          lists
          (set_sem k s (record (k.sem s) { count = (k.sem s).count - 1 }))
          lists
  taken_units pos = record {
    balance = λ a ha max. elim (Bool-cases (a == s)) [
      | inl e ↦
          ground (arith, pos, e, (==_iff a s).0 e, ap (λ b. (k.sem b).count) ((==_iff a s).0 e))
      | inr ne ↦ ground (arith, ne)
    ];
  }

  pub blocked_units :
      (p : ℕ) (c : Addr) {k1 : Kernel}
      → p < 32
      → ((a : Addr) → (k1.sem a).count ≡ (k.sem a).count)
      → Balances o (do_sem_get s) k lists k1 (blocked lists p c s)
  blocked_units p c lt same = record {
    balance = λ a ha max. elim (Bool-cases (a == s)) [
      | inl e ↦ ground (
        arith,
        e,
        same a,
        length-append (lists s) (c ∷ []),
        ap (λ b. length (lists b)) ((==_iff a s).0 e),
      )
      | inr ne ↦ ground (arith, ne, same a, lt, o.sem_head a ha)
    ];
  }

  pub woken_units :
      (p : ℕ) (w : Addr) (ws : List Addr)
      → p < 32
      → lists s ≡ w ∷ ws
      → Balances o (do_sem_put s) k lists k (woken lists p w s ws)
  woken_units p w ws lt first = record {
    balance = λ a ha max. elim (Bool-cases (a == s)) [
      | inl e ↦ ground (
        arith,
        e,
        lt,
        o.sem_head a ha,
        ap length first,
        ap (λ b. length (lists b)) ((==_iff a s).0 e),
      )
      | inr ne ↦ ground (arith, ne, lt, o.sem_head a ha)
    ];
  }

  pub counted_units :
      Balances o
        (do_sem_put s)
        k
        lists
        (if (k.sem s).count == 0xffffffff
          then k
          else set_sem k s (record (k.sem s) { count = (k.sem s).count + 1 }))
        lists
  counted_units = record {
    balance = λ a ha max. elim (Bool-cases (a == s)) [
      | inl e ↦ ground (arith, e, max, ap (λ b. (k.sem b).count) ((==_iff a s).0 e))
      | inr ne ↦ ground (arith, ne)
    ];
  }
