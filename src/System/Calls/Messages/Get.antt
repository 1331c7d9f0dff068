-- ===== src/System/Calls/Messages/Get.antt =====
-- One call of `msg_get`.
use fos.Prelude.{◌-◌, ◌<◌, ◌≡◌, ◌≢◌, refl, inl, inr, true, arith, List-cases, length, ap}
use fos.MessageQueue.{set_queue}
use fos.LinkedList.{Addr, null}
use fos.LinkedList.Shape.{Lists}
use fos.Kernel.{Kernel, msg_head}
use fos.Sched.Models.{rebase}
use fos.MessageQueue.Get.{msg_get-first, msg_get-blocks}
use fos.System.{Layout, World, run, do_msg_get}
use fos.System.Facts.{Sound, refact}
use fos.System.Facts.Queued.{some-Highest, blocked-Facts}
use fos.System.Objects.{fetched-Facts}
use fos.System.Streams.{none_flows, first_flows, flows_on, messages-plain, messages_far}
use fos.System.Units.{level, turned, sem-queue, sem-messages}
use fos.System.Steady.{steady, settled}
use fos.System.Calls.{Kept, settle, short, short_blocked}
use fos.System.Calls.Messages.{head_q, head_m, far_q, over_q, plain_q, no_sem}

module _ (world : World) {o : Layout} {k : Kernel} {lists : Lists} (g : Sound o k lists) where
  module _ (q : Addr) (hq : o.queue q ≡ true) where
    pub msg_get-Kept :
        (buffer : Addr)
        → buffer ≢ null
        → k.new_task ≢ o.idle
        → Kept world o (do_msg_get q buffer) k lists
    unfolding run
    msg_get-Kept buffer nb ni = elim (List-cases (lists (msg_head q))) [
      | inl none_left ↦
          let (p, lt, i) = g.running in
          let hp = g.models.statics p lt in
          let f =
            blocked-Facts g.facts p k.new_task q lt ni (far_q world g q hq) (head_q world g q hq) hp
              i (no_sem world g q hq) (plain_q world g q hq) in
          let (r, t, ts, h) = some-Highest f in
          let (l, m, e, v) =
            msg_get-blocks world.port o.size g.models q (head_q world g q hq) (head_m world g q hq)
              (over_q world g q hq) buffer nb none_left g.facts.unlocked lt i
              (short world g q (head_q world g q hq)) h
              (short_blocked world g p k.new_task q (far_q world g q hq) h) in
          (
            _,
            _,
            rw e refl,
            settle f h l m v,
            settled h f l m (steady refl (ground (arith, lt, (far_q world g q hq)))),
            λ no. absurd (ground arith),
            flows_on h (
                none_flows g.models q hq buffer none_left (λ a ha. ground (
                  arith,
                  lt,
                  messages-plain o a ha q (plain_q world g q hq),
                  messages_far o a ha,
                ))),
            turned h f
                (level (λ a. refl) (λ a. refl) refl
                  (λ a ha.
                    ground (
                      arith,
                      lt,
                      sem-queue o a ha q hq,
                      sem-messages o a ha q hq,
                      o.sem_head a ha,
                    )))
                _ refl,
          )
      | inr (msg, msgs, em) ↦
          let pos : 0 < (k.queue q).count = omega (arith, g.facts.counted q hq, ap length em) in
          let (l, e, v) =
            msg_get-first world.port o.size g.models q (head_q world g q hq) (head_m world g q hq)
              (over_q world g q hq) buffer nb em pos in
          let k' : Kernel =
            record (set_queue k q (record (k.queue q) { count = (k.queue q).count - 1 })) {
              links = l;
            } in
          let (p, lp, i) = g.running in
          (
            k',
            _,
            rw e refl,
            record {
              models = rebase k' v refl refl refl;
              running = (p, lp, ground (arith, i, lp, (far_q world g q hq)));
              facts = refact k' (fetched-Facts g.facts q hq em) refl refl refl refl refl;
            },
            steady refl (ground (arith, (far_q world g q hq))),
            λ no. absurd (ground arith),
            first_flows g.models q hq buffer em (ground arith) (λ a ha ne. ground (arith, ne)),
            level (λ a. refl) (λ a. refl) refl
                (λ a ha.
                  ground (arith, sem-queue o a ha q hq, sem-messages o a ha q hq, o.sem_head a ha)),
          )
    ]
