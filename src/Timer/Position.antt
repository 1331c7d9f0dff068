-- ===== src/Timer/Position.antt =====
-- Where the walk of `hardware_timer` over the tick queue of kernel/timer.c stands between two
-- entries, and how an entry moves it on.
use fos.Prelude.{
  ℕ, ◌+◌, ◌<◌, ◌≡◌, ◌≢◌, refl, inl, inr, Bool, true, false, some, List, ◌∷◌, [], ◌++◌, arith, ◌==◌,
  if◌then◌else◌, update, length, ◌∈◌, ◌∉◌, has, remove, ap, Bool-cases, ==_ne, has-append,
  length-append, ◌∙◌,
}
use fos.LinkedList.{Addr, Links, null, list_delete}
use fos.LinkedList.Chain.{Same}
use fos.LinkedList.Shape.{Lists, Loose, Shape-list_delete}
use fos.PrioMap.{PrioMap}
use fos.Kernel.{Kernel, Tick, Msg, tick_queue}
use fos.Sched.{prio_ready_queue_insert_tail}
use fos.Sched.Models.{ready, Models, rebase}
use fos.Sched.Models.Queues.{blocked-Models, insert_tail-at}
use fos.Sched.Tail.{Same-insert_tail}
use fos.Sched.Fetch.{Models-ext}
use fos.Timer.Ages.{wakes, stays, aged, sleepers, Sleeping}
use fos.Timer.Queue.{
  next_of, prev_ne, Chain-middle, next-list_delete, regroup, not_here, Sleeping-to, out_rest,
  Sleeping-shrink, Sleeping-woken,
}

module _ (fuel : ℕ) where
  -- Where the walk stands: the nodes `done` before it are still in the queue, the nodes `ys` are to
  -- come, and their entries are those of `tick0`.
  pub record Position (head : Addr → Bool) (tick0 : Addr → Tick) (k : Kernel) (lists : Lists)
      (tmp : Addr) (done ys : List Addr) : Type 0 where
    pub models : Models head k (update lists tick_queue (done ++ ys))
    pub leads : k.links.next tmp ≡ next_of tmp ys
    pub ahead : tmp ∉ ys
    pub fresh : (z : Addr) → z ∈ ys → k.tick z ≡ tick0 z
    pub asleep : Sleeping head (update lists tick_queue (done ++ ys)) (sleepers tick0 ys)
    pub room : (p : ℕ) → p < 32 → length (ready lists p) + length ys < fuel

  -- The node at hand.
  module _ {head : Addr → Bool} (ht : head tick_queue ≡ true) {tick0 : Addr → Tick} {k : Kernel}
      {lists : Lists} {tmp y : Addr} {done ys : List Addr}
      (pos : Position head tick0 k lists tmp done (y ∷ ys)) where
    pub middle :
        (k.links.next y ≡ next_of y ys)
        × (y ∉ ys)
        × (y ∉ (tick_queue ∷ done))
        × (remove y (done ++ y ∷ ys) ≡ done ++ ys)
    middle = Chain-middle k.links tick_queue y done ys (pos.models.shape.chain tick_queue ht)

    -- It stays.
    pub Position-stays :
        (tk : Addr → Tick) (msg : Addr → Msg)
        → ((z : Addr) → tk z ≡ (if z == y then aged (k.tick y) else k.tick z))
        → stays (tick0 y) ≡ true
        → Position head tick0 (record k { tick = tk; msg = msg }) lists y (done ++ y ∷ []) ys
    unfolding sleepers
    Position-stays tk msg at s = record {
      models =
          Models-ext (rebase _ pos.models refl refl refl) (λ h. ground (arith, regroup done y ys));
      leads = middle.0;
      ahead = middle.1;
      fresh = λ z i. ground (arith, at z, pos.fresh z, middle.1, not_here z y ys);
      asleep = Sleeping-to pos.asleep (λ h. ground (arith, regroup done y ys)) (ground (arith));
      room = λ p lt. omega (arith, pos.room p lt);
    }

    abbrev pub removed : Links
    removed = list_delete k.links y

    pub here : y ∈ (done ++ y ∷ ys)
    here = ground (arith, has-append y done (y ∷ ys))

    -- The kernel without the entry.
    pub Models-removed :
        (msg : Addr → Msg)
        → Models head
            (record k { links = removed; msg = msg })
            (update lists tick_queue (done ++ ys))
    Models-removed msg =
        let s = Shape-list_delete pos.models.shape tick_queue y ht here in
        Models-ext
          (rebase _
            (blocked-Models pos.models removed tick_queue (remove y (done ++ y ∷ ys)) ht
              (omega arith) s
              (ground (arith, middle.3, out_rest null y done ys, pos.models.no_null tick_queue ht)))
            refl refl refl)
          (λ h. ground (arith, middle.3))

    pub next_removed : removed.next y ≡ next_of y ys
    next_removed =
        next-list_delete k.links y (
          prev_ne k.links tick_queue y (done ++ y ∷ ys) (pos.models.shape.chain tick_queue ht) here)
        ∙ middle.0

    -- It leaves, and wakes nobody.
    pub Position-fires :
        (msg : Addr → Msg)
        → wakes (tick0 y) ≡ false
        → Position head tick0 (record k { links = removed; msg = msg }) lists y done ys
    unfolding sleepers
    Position-fires msg w = record {
      models = Models-removed msg;
      leads = next_removed;
      ahead = middle.1;
      fresh = λ z i. pos.fresh z (ground arith);
      asleep =
          Sleeping-shrink lists tick_queue (done ++ y ∷ ys) (done ++ ys)
            (Sleeping-to pos.asleep (λ h. refl) (ground (arith, w))) (λ c. out_rest c y done ys);
      room = λ p lt. omega (arith, pos.room p lt);
    }

    -- It leaves, and wakes its task.
    pub tasks_left :
        wakes (tick0 y) ≡ true
        → Sleeping head (update lists tick_queue (done ++ ys)) ((tick0 y).tcb ∷ sleepers tick0 ys)
    unfolding sleepers
    tasks_left w =
        Sleeping-shrink lists tick_queue (done ++ y ∷ ys) (done ++ ys)
          (Sleeping-to pos.asleep (λ h. refl) (ground (arith, w))) (λ c. out_rest c y done ys)

    pub first-Loose :
        wakes (tick0 y) ≡ true → Loose head (update lists tick_queue (done ++ y ∷ ys)) (tick0 y).tcb
    unfolding sleepers
    first-Loose w = pos.asleep.loose (tick0 y).tcb (ground (arith, w))

    pub y_out :
        (c p : ℕ)
        → p < 32
        → c ∉ (done ++ y ∷ ys)
        → y ∉ (c ∷ (p + 1) ∷ ready (update lists tick_queue (done ++ ys)) p)
    y_out c p lt out =
        let sh = pos.models.shape in
        let hp = pos.models.statics p lt in
        let ne : (y == c) ≡ false =
          ==_ne y c (λ e. ground (arith, here, ap (λ a. has a (done ++ y ∷ ys)) e)) in
        let nh : (y == p + 1) ≡ false =
          ==_ne y (p + 1) (λ e. ground (arith, hp, sh.plain tick_queue y ht here, ap head e)) in
        let nr : y ∉ lists (p + 1) = elim (Bool-cases (has y (lists (p + 1)))) [
          | inr out' ↦ out'
          | inl i ↦ absurd (ground (arith, here, sh.apart (p + 1) tick_queue y hp ht))
        ] in
        ground (arith, ne, nh, nr)

    pub Position-wakes :
        (msg : Addr → Msg)
        → wakes (tick0 y) ≡ true
        → (let c = (tick0 y).tcb in
            let p = (k.tcb c).prio in
            (l : Links) × (m : PrioMap) × (prio_ready_queue_insert_tail fuel c
                (record k { links = removed; msg = msg })
              ≡ some (record k { links = l; map = m; msg = msg }))
            × Position head tick0
                (record k { links = l; map = m; msg = msg })
                (update lists (p + 1) (ready lists p ++ c ∷ []))
                y
                done
                ys)
    Position-wakes msg w =
        let c = (tick0 y).tcb in
        let p = (k.tcb c).prio in
        let sl = tasks_left w in
        let v1 = Models-removed msg in
        let lt : p < 32 = v1.prios c in
        let o = sl.loose c (ground arith) in
        let ne : c ≢ null = λ z. ground (arith, sl.not_null, ap (λ a. has a (null ∷ [])) z) in
        let (l, m, e, v2) = insert_tail-at v1 fuel c p refl o ne (ground (arith, pos.room p lt)) in
        let same : Same l removed y =
          Same-insert_tail v1 fuel c y l m ne (ground (arith, pos.room p lt)) e
            (y_out c p lt ((first-Loose w).free tick_queue ht)) in
        (
          l,
          m,
          e,
          record {
            models = Models-ext v2 (λ h. ground (arith, lt));
            leads = same.0 ∙ next_removed;
            ahead = middle.1;
            fresh = λ z i. pos.fresh z (ground arith);
            asleep = Sleeping-to (Sleeping-woken (p + 1) sl) (λ h. ground (arith, lt)) refl;
            room = λ q hq. ground (arith, pos.room q hq, length-append (ready lists p) (c ∷ []));
          },
        )
