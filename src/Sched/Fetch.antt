-- ===== src/Sched/Fetch.antt =====
-- The choice of the next task: `prio_ready_queue_fetch` and `schedule` of kernel/prio_sched.c.
use mathlib.Core.Path.{subst, fun_ext}
use fos.Prelude.{
  ℕ, ◌+◌, ◌<◌, ◌≤◌, ◌≡◌, ◌≢◌, refl, ap, inl, inr, Bool, true, some, List, [], ◌∷◌, ◌++◌, arith,
  ◌==◌, Bool-cases, if◌then◌else◌, update, length, has, ◌∈◌, remove, is_nil, ==_ne,
}
use fos.LinkedList.{Addr, null, is_list_last}
use fos.LinkedList.Chain.{Chain, Chain-is_nil}
use fos.LinkedList.Shape.{Lists, Loose-list_delete}
use fos.PrioMap.{bitmap_get}
use fos.PrioMap.Set.{bitmap_get-least}
use fos.Kernel.{Kernel, ◌>>=◌, no_sched, sched}
use fos.Sched.{bit_first_one_search, rotate, prio_ready_queue_fetch}
use fos.Sched.Models.{ready, is_ready, Models, Leaves}
use fos.Sched.Models.Queues.{delete-at, insert_tail-at}

-- `t` is first among the ready tasks of the highest priority that has one, and `ts` are the tasks
-- behind it. A small number is a high priority.
pub record Highest (lists : Lists) (p : ℕ) (t : Addr) (ts : List Addr) : Type 0 where
  pub in_range : p < 32
  pub first : ready lists p ≡ t ∷ ts
  pub none_above : (q : ℕ) → q < p → ready lists q ≡ []

-- Lists that agree everywhere are the same.
pub Models-ext :
    {head : Addr → Bool} {k : Kernel} {f g : Lists}
    → Models head k f
    → ((h : Addr) → f h ≡ g h)
    → Models head k g
Models-ext {head} {k} v e = subst (λ lists. Models head k lists) (fun_ext e) v

append-nil_left : (ts : List Addr) (t : Addr) → is_nil ts ≡ true → ts ++ t ∷ [] ≡ t ∷ []
append-nil_left [] t e = refl
append-nil_left (x ∷ xs) t e = cc

module _ {head : Addr → Bool} {k : Kernel} {lists : Lists} (v : Models head k lists) where
  module _ {p : ℕ} {t : Addr} {ts : List Addr} (h : Highest lists p t ts) where
    is_ready-true : is_ready lists p ≡ true
    is_ready-true = rw h.first (ground (arith, h.in_range))

    bitmap_get-eq : bitmap_get k.map ≡ p
    bitmap_get-eq =
        let (on, lt, least) = bitmap_get-least v.map p (omega (arith, h.in_range)) is_ready-true in
        ground (arith, is_ready-true, on, least p, h.none_above (bitmap_get k.map))

    chain : Chain k.links (p + 1) (t ∷ ts)
    chain =
        subst (λ xs. Chain k.links (p + 1) xs) h.first
          (v.shape.chain (p + 1) (v.statics p h.in_range))

    mem : t ∈ ready lists p
    mem = rw h.first (ground arith)

    not_null : t ≢ null
    not_null e =
        ground (
          arith,
          mem,
          ap (λ a. has a (ready lists p)) e,
          v.no_null (p + 1) (v.statics p h.in_range),
        )

    search_lem : bit_first_one_search k ≡ some t
    unfolding bit_first_one_search
    search_lem = rw bitmap_get-eq (ground (arith, h.in_range, chain.0))

    -- The first task goes behind the others.
    rotate-Leaves :
        (fuel : ℕ)
        → length (t ∷ ts) ≤ fuel
        → Leaves head (rotate fuel t k) k (update lists (p + 1) (ts ++ t ∷ []))
    unfolding rotate
    rotate-Leaves fuel room = elim (Bool-cases (is_nil ts)) [
      | inl e ↦ (
        k.links,
        k.map,
        rw (last, e),
        Models-ext v (λ g. ground (arith, h.first, append-nil_left ts t e)),
      )
      | inr e ↦
          let prio : (k.tcb t).prio ≡ p = v.queued p t h.in_range mem in
          let (l, m, e1, v1) = delete-at v t p prio mem in
          let o = Loose-list_delete v.shape (p + 1) t (v.statics p h.in_range) mem in
          let (l', m', e2, v2) =
            insert_tail-at v1 fuel t p prio o not_null (ground (arith, ap length rem)) in
          (l', m', rw (last, e, e1) e2, Models-ext v2 (λ g. ground (arith, rem)))
    ]
      where
        last : is_list_last k.links t ≡ is_nil ts
        last = Chain-is_nil k.links t ts chain.3

        rem : remove t (ready lists p) ≡ ts
        rem = rw h.first (ground arith)

    -- The fetch ends, moves the first task of the highest ready priority behind the others of that
    -- priority, and makes it the new task.
    pub fetch_lem :
        (fuel : ℕ)
        → length (t ∷ ts) ≤ fuel
        → Leaves head (rotate fuel t k) k (update lists (p + 1) (ts ++ t ∷ []))
          × (prio_ready_queue_fetch fuel k ≡ (
              rotate fuel t k >>= λ k. some (
                if t == k.new_task
                then (no_sched, k)
                else (sched, record k { old_task = k.new_task; new_task = t }))))
    unfolding prio_ready_queue_fetch
    fetch_lem fuel room = (rotate-Leaves fuel room, rw (search_lem, ==_ne t null not_null))
