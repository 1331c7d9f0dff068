-- ===== src/System/Calls/Mutexes.antt =====
-- One call of `mutex_get` or `mutex_put`.
use fos.Prelude.{
  ℕ, ◌<◌, ◌≡◌, ◌≢◌, refl, inl, inr, true, false, ◌∷◌, arith, ◌==◌, Bool-cases, List-cases, ◌∈◌,
  ==_iff, ◌∙◌,
}
use fos.LinkedList.{Addr}
use fos.LinkedList.Shape.{Lists}
use fos.Kernel.{Kernel, tick_queue, set_prio}
use fos.Sched.Models.{ready, Models}
use fos.Mutex.{prio_mutex}
use fos.Mutex.Ceiling.{moved, took, mutex_get-took, move_to_prio-Leaves}
use fos.Mutex.Waiters.{mutex_get-blocks, mutex_put-wakes, mutex_put_alone}
use fos.System.{Layout, World, run, do_mutex_get, do_mutex_put}
use fos.System.Facts.{Facts, Sound, refact}
use fos.System.Facts.Queued.{some-Highest, blocked-Facts, woken-Facts}
use fos.System.Moves.{moved-Facts, moved_far, took-Facts, gave-Facts, waits-Facts}
use fos.System.Streams.{still, flows_on, messages-plain, messages_far}
use fos.System.Units.{level, turned, sem-mutex}
use fos.System.Steady.{chosen, steady, settled}
use fos.System.Calls.{Kept, settle, short, short_first, short_blocked, short_woken}

module _ (world : World) {o : Layout} {k : Kernel} {lists : Lists} (g : Sound o k lists) where
  -- The running task at another priority, still the running one.
  pub moved-Sound :
      (p r : ℕ)
      → p < 32
      → r < 32
      → k.new_task ∈ ready lists p
      → k.new_task ≢ o.idle
      → (k' : Kernel) → Models o.head k' (moved lists p r k.new_task)
      → k'.new_task ≡ k.new_task
      → Facts o k' (moved lists p r k.new_task)
      → Sound o k' (moved lists p r k.new_task)
  moved-Sound p r lt lt' i ni k' v e f = record {
    models = v;
    running = (r, lt', ground (arith, e));
    facts = f;
  }

  module _ (m : Addr) (hm : o.mutex m ≡ true) (ni : k.new_task ≢ o.idle) where
    head_m : o.head m ≡ true
    head_m = (o.mutex_head m hm).0

    far_m : tick_queue < m
    far_m = (o.mutex_head m hm).1

    over_m : 32 < m
    over_m = omega (arith, far_m)

    plain_m : o.stores m ≡ false
    plain_m = (o.mutex_head m hm).2

    no_sem : o.sem m ≡ true → (k.sem m).count ≡ 0
    no_sem hs = absurd (ground (arith, hs, (o.mutex_head m hm).3))

    pub mutex_get-Kept : Kept world o (do_mutex_get m) k lists
    unfolding run
    mutex_get-Kept =
        let (p, lt, i) = g.running in
        let hp = g.models.statics p lt in
        elim (Bool-cases ((k.mutex m).enable == 0)) [
          | inl taken ↦
              let zero_left : (k.mutex m).enable ≡ 0 = (==_iff (k.mutex m).enable 0).0 taken in
              let f =
                waits-Facts
                  (blocked-Facts g.facts p k.new_task m lt ni far_m head_m hp i no_sem plain_m) m
                  k.new_task in
              let (q, t, ts, h) = some-Highest f in
              let (l, mp, e, v) =
                mutex_get-blocks world.port o.size g.models m head_m over_m g.facts.unlocked
                  zero_left lt i (short world g m head_m) h
                  (short_blocked world g p k.new_task m far_m h) in
              (
                _,
                _,
                rw e refl,
                settle f h l mp v,
                settled h f l mp (steady refl (ground (arith, lt, far_m))),
                λ no. absurd (ground arith),
                flows_on h (
                    still (λ a. refl) (λ a. refl)
                      (λ a ha.
                        ground (arith, lt, messages-plain o a ha m plain_m, messages_far o a ha))),
                turned h f
                    (level (λ a. refl) (λ a. refl) refl
                      (λ a ha. ground (arith, lt, sem-mutex o a ha m hm, o.sem_head a ha)))
                    _ refl,
              )
          | inr free ↦
              let some_left : (k.mutex m).enable ≢ 0 = λ z. ground (arith, free, z) in
              let (l, mp, e, v) =
                mutex_get-took world.port o.size g.models m p (omega (arith, far_m)) some_left lt
                  i in
              let f =
                refact (record (took k m) { links = l; map = mp })
                  (took-Facts (moved-Facts g.facts p prio_mutex k.new_task lt (omega arith) ni hp i)
                    m (g.models.prios k.new_task))
                  refl refl refl refl refl in
              (
                record (took k m) { links = l; map = mp },
                _,
                rw e refl,
                moved-Sound p prio_mutex lt (omega arith) i ni _ v refl f,
                steady refl (ground (arith, lt)),
                λ no. absurd (ground arith),
                still (λ a. refl) (λ a. refl) (λ a ha. ground (arith, lt, messages_far o a ha)),
                level (λ a. refl) (λ a. refl) refl (λ a ha. ground (arith, lt, o.sem_head a ha)),
              )
        ]

    pub mutex_put-Kept : Kept world o (do_mutex_put m) k lists
    unfolding run
    mutex_put-Kept =
        let (p, lt, i) = g.running in
        let hp = g.models.statics p lt in
        let r = (k.mutex m).copy_prio in
        let lt' = g.facts.ceiling m hm in
        let (l1, m1, e1, v1) = move_to_prio-Leaves g.models k.new_task p r lt lt' i in
        let f1 = moved-Facts g.facts p r k.new_task lt lt' ni hp i in
        let k1 : Kernel = record (set_prio k k.new_task r) { links = l1; map = m1 } in
        let g1 = moved-Sound p r lt lt' i ni k1 v1 refl (refact k1 f1 refl refl refl refl refl) in
        elim (List-cases (lists m)) [
          | inl nobody ↦
              let f = gave-Facts f1 m r in
              let (q, t, ts, h) = some-Highest f in
              let (l, mp, e, v) =
                mutex_put_alone world.port o.size g.models m head_m over_m g.facts.unlocked lt i
                  refl lt' nobody h (short_first world g1 h) in
              (
                _,
                _,
                rw e refl,
                settle f h l mp v,
                settled h f l mp (steady refl (ground (arith, lt, lt'))),
                λ yes. chosen h _,
                flows_on h (
                    still (λ a. refl) (λ a. refl)
                      (λ a ha. ground (arith, lt, lt', messages_far o a ha))),
                turned h f
                    (level (λ a. refl) (λ a. refl) refl
                      (λ a ha. ground (arith, lt, lt', o.sem_head a ha)))
                    _ refl,
              )
          | inr (w, ws, ew) ↦
              let pw = (k.tcb w).prio in
              let lw = g.models.prios w in
              let same : moved lists p r k.new_task m ≡ w ∷ ws =
                moved_far g.facts p r k.new_task m lt lt' over_m ∙ ew in
              let f =
                gave-Facts
                  (woken-Facts f1 pw w m ws lw far_m head_m same (g.models.statics pw lw) plain_m) m
                  r in
              let (q, t, ts, h) = some-Highest f in
              let (l, mp, e, v) =
                mutex_put-wakes world.port o.size g.models m head_m over_m g.facts.unlocked lt i
                  refl lt' ew h (short_woken world g1 pw w m ws far_m h) in
              (
                _,
                _,
                rw e refl,
                settle f h l mp v,
                settled h f l mp (steady refl (ground (arith, lt, lt', lw, far_m))),
                λ yes. chosen h _,
                flows_on h (
                    still (λ a. refl) (λ a. refl)
                      (λ a ha. ground (
                        arith,
                        lt,
                        lt',
                        lw,
                        messages-plain o a ha m plain_m,
                        messages_far o a ha,
                      ))),
                turned h f
                    (level (λ a. refl) (λ a. refl) refl
                      (λ a ha. ground (arith, lt, lt', lw, sem-mutex o a ha m hm, o.sem_head a ha)))
                    _ refl,
              )
        ]
