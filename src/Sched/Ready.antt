-- ===== src/Sched/Ready.antt =====
-- The highest ready priority, which `schedule` of kernel/prio_sched.c looks for.
use fos.Prelude.{
  ℕ, zero, suc, ◌+◌, ◌<◌, ◌≤◌, ◌≡◌, ◌≢◌, ◌⊎◌, inl, inr, refl, Bool, false, some, List, [], ◌∷◌,
  ◌++◌, arith, update, length, ap, ◌∙◌,
}
use native.Mathlib.Decide.{dec_lt}
use fos.LinkedList.{Addr}
use fos.LinkedList.Shape.{Lists}
use fos.Kernel.{Kernel, Port}
use fos.Sched.{schedule}
use fos.Sched.Models.{ready, Models}
use fos.Sched.Fetch.{Highest}
use fos.Sched.Switch.{switch_to, schedule-Highest}

-- A queue is empty or has a first task.
list_cases : (xs : List Addr) → (xs ≡ []) ⊎ ((t : Addr) × (ts : List Addr) × (xs ≡ t ∷ ts))
list_cases [] = inl refl
list_cases (t ∷ ts) = inr (t, ts, refl)

-- Below `n`, no queue has a task or one is the first that has.
search_below :
    (lists : Lists) (n : ℕ)
    → n ≤ 32
    → ((q : ℕ) → q < n → ready lists q ≡ [])
      ⊎ ((p : ℕ) × (t : Addr) × (ts : List Addr) × Highest lists p t ts)
search_below lists zero le = inl (λ q lt. absurd (omega arith))
search_below lists (suc n) le = elim (search_below lists n (omega arith)) [
  | inr found ↦ inr found
  | inl none ↦ elim (list_cases (ready lists n)) [
    | inl e ↦ inl (λ q lt. elim (dec_lt q n) [
      | yes less ↦ none q less
      | no ge ↦ let same : q ≡ n = omega arith in ap (ready lists) same ∙ e
    ])
    | inr (t, ts, e) ↦
        inr (n, t, ts, record { in_range = omega arith; first = e; none_above = λ q h. none q h })
  ]
]

-- If a task is ready, there is a first task of a highest ready priority.
pub Highest-ready :
    (lists : Lists) (p : ℕ)
    → p < 32
    → ready lists p ≢ []
    → (q : ℕ) × (t : Addr) × (ts : List Addr) × Highest lists q t ts
Highest-ready lists p lt ne = elim (search_below lists 32 (omega arith)) [
  | inr found ↦ found
  | inl none ↦ absurd (ne (none p lt))
]

-- If some task is ready, an unlocked scheduler returns, given fuel for the longest ready queue, with
-- the processor on the first task of the highest ready priority, and every task is still ready.
pub schedule-ready :
    (port : Port) (fuel : ℕ) {head : Addr → Bool} {k : Kernel} {lists : Lists}
    → Models head k lists
    → (p : ℕ) → p < 32
    → ready lists p ≢ []
    → ((q : ℕ) → q < 32 → length (ready lists q) ≤ fuel)
    → k.schedule_is_lock ≡ false
    → (k' : Kernel) × (q : ℕ) × (t : Addr) × (ts : List Addr) × Highest lists q t ts
      × (schedule port fuel k ≡ some k')
      × (k'.new_task ≡ t)
      × (k'.sr ≡ k.sr)
      × Models head k' (update lists (q + 1) (ts ++ t ∷ []))
schedule-ready port fuel {k} {lists} v p lt ne room unlocked =
    let (q, t, ts, h) = Highest-ready lists p lt ne in
    let fits : length (t ∷ ts) ≤ fuel = ground (arith, room q h.in_range, h.first) in
    let (l, m, e, v1) = schedule-Highest port fuel v h fits unlocked in
    (switch_to t (record k { links = l; map = m }), q, t, ts, h, e, ground arith, ground arith, v1)
