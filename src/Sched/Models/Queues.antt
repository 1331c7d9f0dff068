-- ===== src/Sched/Models/Queues.antt =====
-- The operations on the ready queues of kernel/prio_sched.c, on the lists that the memory holds.
use fos.Prelude.{
  is_nil, is_nil-mem, ℕ, ◌+◌, ◌<◌, ◌≡◌, ◌≢◌, refl, inl, inr, Bool, true, false, not, List, [], ◌∷◌,
  ◌++◌, arith, Bool-cases, if◌then◌else◌, update, length, ◌∈◌, ◌∉◌, remove, has-append, has-remove,
}
use mathlib.Core.Path.{subst}
use fos.LinkedList.{Addr, null, Links, is_list_last, list_insert_spec, list_delete}
use fos.LinkedList.Shape.{
  Lists, Shape, Loose, Shape-list_insert_spec, Shape-list_insert_behind, Shape-list_delete,
  is_list_last-is_nil,
}
use fos.PrioMap.{PrioMap, bitmap_set, bitmap_clear}
use fos.PrioMap.Set.{Holds, Holds-bitmap_set, Holds-bitmap_clear}
use fos.Kernel.{Kernel}
use fos.Sched.{prio_ready_queue_insert_head, prio_ready_queue_insert_tail, prio_ready_queue_delete}
use fos.Sched.Models.{ready, is_ready, Models, Leaves, Holds-ext}

not_nil-append : (xs : List Addr) (t : Addr) → is_nil (xs ++ t ∷ []) ≡ false
not_nil-append [] t = refl
not_nil-append (x ∷ xs) t = refl

module _ {head : Addr → Bool} {k : Kernel} {lists : Lists} (v : Models head k lists) where
  -- The lists after a change of one ready queue, given the memory and the map.
  requeued :
      (l : Links) (m : PrioMap) (p : ℕ) (xs : List Addr)
      → p < 32
      → Shape head l (update lists (p + 1) xs)
      → Holds m (update (is_ready lists) p (not (is_nil xs)))
      → ((t : Addr) → t ∈ xs → ((k.tcb t).prio ≡ p) × (t ≢ null))
      → Models head (record k { links = l; map = m }) (update lists (p + 1) xs)
  requeued l m p xs lt s h mem = record {
    shape = s;
    map = Holds-ext (λ q hq. ground arith) h;
    queued = λ q t hq i. ground (arith, v.queued q t hq, mem t);
    prios = v.prios;
    statics = v.statics;
    no_null = λ g hg. ground (arith, v.no_null g hg, mem null);
  }

  -- The state after a loose task has been put in front of its queue.
  pub insert_head-Models :
      (t : Addr)
      → Loose head lists t
      → t ≢ null
      → let p = (k.tcb t).prio in
        Models head
          (record k { links = list_insert_spec k.links (p + 1) t; map = bitmap_set k.map p })
          (update lists (p + 1) (t ∷ ready lists p))
  insert_head-Models t o ne =
      let p = (k.tcb t).prio in
      requeued _ _ p (t ∷ ready lists p) (v.prios t)
        (Shape-list_insert_spec v.shape (p + 1) t (v.statics p (v.prios t)) o)
        (Holds-bitmap_set v.map p (omega (arith, v.prios t)))
        (λ u i.
          ground (arith, v.queued p u (v.prios t), v.no_null (p + 1) (v.statics p (v.prios t))))

  pub insert_head-Leaves :
      (t : Addr)
      → Loose head lists t
      → t ≢ null
      → let p = (k.tcb t).prio in
        Leaves head (prio_ready_queue_insert_head t k) k (update lists (p + 1) (t ∷ ready lists p))
  unfolding prio_ready_queue_insert_head
  insert_head-Leaves t o ne = (
    list_insert_spec k.links ((k.tcb t).prio + 1) t,
    bitmap_set k.map (k.tcb t).prio,
    ground (arith, v.prios t),
    insert_head-Models t o ne,
  )

  pub insert_tail-Leaves :
      (fuel : ℕ) (t : Addr)
      → Loose head lists t
      → t ≢ null
      → length (ready lists (k.tcb t).prio) < fuel
      → let p = (k.tcb t).prio in
        Leaves head
          (prio_ready_queue_insert_tail fuel t k)
          k
          (update lists (p + 1) (ready lists p ++ t ∷ []))
  unfolding prio_ready_queue_insert_tail
  insert_tail-Leaves fuel t o ne room =
      let p = (k.tcb t).prio in
      let hh = v.statics p (v.prios t) in
      let (l, e, s) = Shape-list_insert_behind v.shape fuel (p + 1) t hh o room in
      (
        l,
        bitmap_set k.map p,
        ground (arith, v.prios t, e),
        requeued _ _ p (ready lists p ++ t ∷ []) (v.prios t) s
            (Holds-ext (λ q hq. ground (arith, not_nil-append (ready lists p) t))
              (Holds-bitmap_set v.map p (omega (arith, v.prios t))))
            (λ u i. ground (
              arith,
              has-append u (ready lists p) (t ∷ []),
              v.queued p u (v.prios t),
              v.no_null (p + 1) hh,
            )),
      )

  pub delete-Leaves :
      (t : Addr)
      → t ∈ ready lists (k.tcb t).prio
      → let p = (k.tcb t).prio in
        Leaves head
          (prio_ready_queue_delete t k)
          k
          (update lists (p + 1) (remove t (ready lists p)))
  unfolding prio_ready_queue_delete
  delete-Leaves t i =
      let p = (k.tcb t).prio in
      let xs = remove t (ready lists p) in
      let hh = v.statics p (v.prios t) in
      let s = Shape-list_delete v.shape (p + 1) t hh i in
      let last : is_list_last (list_delete k.links t) (p + 1) ≡ is_nil xs =
        ground (arith, is_list_last-is_nil s (p + 1) hh) in
      (
        list_delete k.links t,
        (if is_list_last (list_delete k.links t) (p + 1) then bitmap_clear k.map p else k.map),
        ground (arith, v.prios t, v.no_null (p + 1) hh),
        requeued _ _ p xs (v.prios t) s
            (elim (Bool-cases (is_nil xs)) [
              | inl e ↦ rw (last, e) (Holds-bitmap_clear v.map p (omega (arith, v.prios t)))
              | inr e ↦
                  rw (last, e)
                    (Holds-ext (λ q hq. ground (arith, v.prios t, is_nil-mem t (ready lists p) i))
                      v.map)
            ])
            (λ u j. ground (
              arith,
              has-remove t u (ready lists p),
              v.queued p u (v.prios t),
              v.no_null (p + 1) hh,
            )),
      )

  -- The same with the priority of the task as a variable.
  pub insert_head-at :
      (t : Addr) (p : ℕ)
      → (k.tcb t).prio ≡ p
      → Loose head lists t
      → t ≢ null
      → Leaves head (prio_ready_queue_insert_head t k) k (update lists (p + 1) (t ∷ ready lists p))
  insert_head-at t p e o ne =
      subst
        (λ p.
          Leaves head (prio_ready_queue_insert_head t k) k
            (update lists (p + 1) (t ∷ ready lists p)))
        e (insert_head-Leaves t o ne)

  pub insert_tail-at :
      (fuel : ℕ) (t : Addr) (p : ℕ)
      → (k.tcb t).prio ≡ p
      → Loose head lists t
      → t ≢ null
      → length (ready lists p) < fuel
      → Leaves head
          (prio_ready_queue_insert_tail fuel t k)
          k
          (update lists (p + 1) (ready lists p ++ t ∷ []))
  insert_tail-at fuel t p e o ne =
      subst
        (λ p.
          length (ready lists p) < fuel
          → Leaves head (prio_ready_queue_insert_tail fuel t k) k
              (update lists (p + 1) (ready lists p ++ t ∷ [])))
        e (insert_tail-Leaves fuel t o ne)

  pub delete-at :
      (t : Addr) (p : ℕ)
      → (k.tcb t).prio ≡ p
      → t ∈ ready lists p
      → Leaves head
          (prio_ready_queue_delete t k)
          k
          (update lists (p + 1) (remove t (ready lists p)))
  delete-at t p e =
      subst
        (λ p.
          t ∈ ready lists p
          → Leaves head (prio_ready_queue_delete t k) k
              (update lists (p + 1) (remove t (ready lists p))))
        e (delete-Leaves t)

  -- A change of a list that is no ready queue.
  pub blocked-Models :
      (l : Links) (h : Addr) (xs : List Addr)
      → head h ≡ true
      → 32 < h
      → Shape head l (update lists h xs)
      → null ∉ xs
      → Models head (record k { links = l }) (update lists h xs)
  blocked-Models l h xs hh far s nn = record {
    shape = s;
    map = Holds-ext (λ q hq. ground arith) v.map;
    queued = λ q t hq i. ground (arith, v.queued q t hq);
    prios = v.prios;
    statics = v.statics;
    no_null = λ g hg. ground (arith, v.no_null g hg);
  }
