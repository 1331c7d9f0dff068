-- ===== src/System/Calls/Messages.antt =====
-- One call of `msg_put`.
pub mod Get
use fos.Prelude.{
  ℕ, ◌+◌, ◌-◌, ◌<◌, ◌≡◌, ◌≢◌, refl, inl, inr, true, false, List, arith, ◌==◌, Bool-cases,
  List-cases, update, length, ◌∈◌, ap, ==_iff,
}
use mathlib.Core.Path.{subst}
use fos.MessageQueue.{set_queue}
use fos.LinkedList.{Addr, null}
use fos.LinkedList.Shape.{Lists, Loose}
use fos.Kernel.{Kernel, msg_head, tick_queue}
use fos.Sched.Models.{ready, rebase}
use fos.Sched.Block.{woken}
use fos.MessageQueue.Put.{msg_put-stores, msg_put-wakes, msg_put-full, woken_only, HasRoom, stored}
use fos.MessageQueue.Get.{msg_get-first, msg_get-blocks}
use fos.System.{Layout, World, run, do_msg_put, do_msg_get}
use fos.System.Facts.{Facts, Sound, refact}
use fos.System.Facts.Queued.{some-Highest, blocked-Facts, woken-Facts}
use fos.System.Objects.{stored-Facts, fetched-Facts}
use fos.System.Streams.{
  put_flows, full_flows, none_flows, first_flows, flows_on, messages-plain, messages_far,
}
use fos.System.Units.{level, turned, sem-queue, sem-messages}
use fos.System.Steady.{steady, settled}
use fos.System.Calls.{Kept, settle, short, short_blocked}

module _ (world : World) {o : Layout} {k : Kernel} {lists : Lists} (g : Sound o k lists) where
  module _ (q : Addr) (hq : o.queue q ≡ true) where
    head_q : o.head q ≡ true
    head_q = (o.queue_head q hq).0

    head_m : o.head (msg_head q) ≡ true
    head_m = (o.queue_head q hq).1

    far_q : tick_queue < q
    far_q = (o.queue_head q hq).2

    over_q : 32 < q
    over_q = omega (arith, far_q)

    plain_q : o.stores q ≡ false
    plain_q = (o.queue_head q hq).3

    no_sem : o.sem q ≡ true → (k.sem q).count ≡ 0
    no_sem hs = absurd (o.apart q q hs hq refl)

    still_ready :
        (p : ℕ)
        → p < 32
        → k.new_task ∈ ready lists p
        → k.new_task ∈ ready (woken_only k.tcb lists q (lists q)) p
    still_ready p lt i = elim (List-cases (lists q)) [
      | inl none ↦ rw none i
      | inr (w, ws, ew) ↦ rw ew (ground (arith, i, far_q))
    ]

    woken_ticks : woken_only k.tcb lists q (lists q) tick_queue ≡ lists tick_queue
    woken_ticks = elim (List-cases (lists q)) [
      | inl none ↦ rw none refl
      | inr (w, ws, ew) ↦ rw ew (ground (arith, far_q, g.models.prios w))
    ]

    woken_sems : (a : Addr) → o.sem a ≡ true → woken_only k.tcb lists q (lists q) a ≡ lists a
    woken_sems a ha = elim (List-cases (lists q)) [
      | inl none ↦ rw none refl
      | inr (w, ws, ew) ↦
          rw ew (ground (arith, sem-queue o a ha q hq, o.sem_head a ha, g.models.prios w))
    ]

    woken_messages :
        (a : Addr)
        → o.queue a ≡ true
        → woken_only k.tcb lists q (lists q) (msg_head a) ≡ lists (msg_head a)
    woken_messages a ha = elim (List-cases (lists q)) [
      | inl none ↦ rw none refl
      | inr (w, ws, ew) ↦
          rw ew
            (ground (arith, g.models.prios w, messages-plain o a ha q plain_q, messages_far o a ha))
    ]

    msg_put_room :
        (msg method : ℕ)
        → Loose o.head lists msg
        → msg ≢ null
        → msg < o.size
        → o.message msg ≡ true
        → (k.queue q).count < (k.queue q).length
        → Kept world o (do_msg_put q msg method) k lists
    unfolding run
    msg_put_room msg method loose ne lt kind room =
        let r : HasRoom k lists q = record { counted = g.facts.counted q hq; room = room } in
        let long = short world g (msg_head q) head_m in
        elim (List-cases (lists q)) [
          | inl nobody ↦
              let (l, e, v) =
                msg_put-stores world.port o.size g.models q head_q head_m over_q msg method nobody
                  loose ne r long in
              let k' : Kernel =
                record (set_queue k q (record (k.queue q) { count = (k.queue q).count + 1 })) {
                  links = l;
                } in
              let (p, lp, i) = g.running in
              (
                k',
                _,
                rw e refl,
                record {
                  models = rebase k' v refl refl refl;
                  running = (p, lp, ground (arith, i, lp, far_q));
                  facts =
                      refact k' (stored-Facts g.facts q msg method hq lt kind room) refl refl refl
                        refl refl;
                },
                steady refl (ground (arith, far_q)),
                λ no. absurd (ground arith),
                put_flows g.models q hq msg method (ground (arith, room)) (λ e. ground (arith, e))
                    (λ a ha ne. ground (arith, ne)),
                level (λ a. refl) (λ a. refl) refl
                    (λ a ha.
                      ground
                        (arith, sem-queue o a ha q hq, sem-messages o a ha q hq, o.sem_head a ha)),
              )
          | inr (w, ws, ew) ↦
              let p = (k.tcb w).prio in
              let hp = g.models.statics p (g.models.prios w) in
              let f1 = woken-Facts g.facts p w q ws (g.models.prios w) far_q head_q ew hp plain_q in
              let (l, m, e, v) =
                msg_put-wakes world.port o.size g.models q head_q head_m over_q msg method ew loose
                  ne r long in
              let k' : Kernel =
                record (set_queue k q (record (k.queue q) { count = (k.queue q).count + 1 })) {
                  links = l;
                  map = m;
                } in
              let (p0, lp, i) = g.running in
              let same : woken lists p w q ws (msg_head q) ≡ lists (msg_head q) =
                ground (arith, g.models.prios w, far_q) in
              let f2 =
                subst
                  (λ (xs : List Addr).
                    Facts o (set_queue k q (record (k.queue q) { count = (k.queue q).count + 1 }))
                      (update (woken lists p w q ws) (msg_head q) (stored method xs msg)))
                  same (stored-Facts f1 q msg method hq lt kind room) in
              (
                k',
                _,
                rw e refl,
                record {
                  models = rebase k' v refl refl refl;
                  running = (p0, lp, ground (arith, i, lp, far_q));
                  facts = refact k' f2 refl refl refl refl refl;
                },
                steady refl (ground (arith, far_q, g.models.prios w)),
                λ no. absurd (ground arith),
                put_flows g.models q hq msg method (ground (arith, room)) (λ e. ground (arith, e))
                    (λ a ha ne. ground (
                      arith,
                      ne,
                      g.models.prios w,
                      messages-plain o a ha q plain_q,
                      messages_far o a ha,
                    )),
                level (λ a. refl) (λ a. refl) refl
                    (λ a ha. ground (
                      arith,
                      g.models.prios w,
                      sem-queue o a ha q hq,
                      sem-messages o a ha q hq,
                      o.sem_head a ha,
                    )),
              )
        ]

    pub msg_put-Kept :
        (msg method : ℕ)
        → Loose o.head lists msg
        → msg ≢ null
        → msg < o.size
        → o.message msg ≡ true
        → Kept world o (do_msg_put q msg method) k lists
    unfolding run
    msg_put-Kept msg method loose ne lt kind =
        elim (Bool-cases ((k.queue q).count == (k.queue q).length)) [
          | inr less ↦
              msg_put_room msg method loose ne lt kind (ground (arith, less, g.facts.fits q hq))
          | inl no_room ↦
              let z : (k.queue q).count ≡ (k.queue q).length =
                (==_iff (k.queue q).count (k.queue q).length).0 no_room in
              let (l, m, e, v) =
                msg_put-full world.port o.size g.models q head_q head_m over_q msg method ne z in
              let k' : Kernel = record k { links = l; map = m } in
              let (p, lp, i) = g.running in
              let f : Facts o k (woken_only k.tcb lists q (lists q)) =
                (elim (List-cases (lists q)) [
                  | inl none ↦ rw none g.facts
                  | inr (w, ws, ew) ↦
                      let pw = (k.tcb w).prio in
                      let lw = g.models.prios w in
                      rw ew (
                        woken-Facts g.facts pw w q ws lw far_q head_q ew (g.models.statics pw lw)
                          plain_q)
                ]) in
              (
                k',
                _,
                rw e refl,
                record {
                  models = v;
                  running = (p, lp, still_ready p lp i);
                  facts = refact k' f refl refl refl refl refl;
                },
                steady refl (woken_ticks),
                λ no. absurd (ground arith),
                full_flows g.models q hq msg method no_room woken_messages,
                level (λ a. refl) (λ a. refl) refl (λ a ha. woken_sems a ha),
              )
        ]
