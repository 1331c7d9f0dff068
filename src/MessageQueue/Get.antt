-- ===== src/MessageQueue/Get.antt =====
-- `msg_get` of kernel/queue.c on the level of the lists.
use fos.Prelude.{
  ℕ, ◌+◌, ◌-◌, ◌<◌, ◌≤◌, ◌≡◌, ◌≢◌, refl, Bool, true, false, none, some, List, ◌∷◌, [], ◌++◌, arith,
  ◌==◌, update, length, ◌∈◌, remove, ap, ==_ne, is_nil, has-remove,
}
use fos.LinkedList.{Addr, Links, null, list_delete}
use fos.LinkedList.Shape.{Lists, is_list_last-is_nil, Shape-list_delete}
use fos.PrioMap.{PrioMap}
use fos.Kernel.{Kernel, Port, true_code, msg_head}
use fos.Sched.Models.{ready, Models, rebase}
use fos.Sched.Models.Queues.{blocked-Models}
use fos.Sched.Fetch.{Highest, Models-ext}
use fos.Sched.Switch.{switch_to, switch-rebase, schedule_raw}
use fos.Sched.Block.{blocked, block_lem, first_blocked}
use fos.MessageQueue.{set_queue, msg_get, empty}

not_zero : (s : Addr) → 32 < s → (s == null) ≡ false
not_zero s h = ground arith

module _ (port : Port) (fuel : ℕ) {head : Addr → Bool} {k : Kernel} {lists : Lists}
    (v : Models head k lists) (q : Addr) (hq : head q ≡ true) (hm : head (msg_head q) ≡ true)
    (far : 32 < q) (buffer : Addr) (nb : buffer ≢ null) where
  -- With a message in the queue, `msg_get` copies the first one out, takes it off the queue and
  -- lowers the count by one; nothing else changes, and the processor stays.
  pub msg_get-first :
      {msg : Addr} {msgs : List Addr}
      → lists (msg_head q) ≡ msg ∷ msgs
      → 0 < (k.queue q).count
      → (l : Links) × (msg_get port fuel q buffer k
          ≡ some (
            true_code,
            some (k.msg msg).buff,
            record (set_queue k q (record (k.queue q) { count = (k.queue q).count - 1 })) {
              links = l;
            },
          ))
        × Models head (record k { links = l }) (update lists (msg_head q) msgs)
  unfolding msg_get
  msg_get-first {msg} {msgs} e pos =
      let (next, _, i) = first_blocked v (msg_head q) hm (omega arith) msg msgs e in
      let rest : remove msg (lists (msg_head q)) ≡ msgs = rw e (ground arith) in
      (
        list_delete k.links msg,
        ground (
          arith,
          next,
          not_zero q far,
          ==_ne buffer null nb,
          pos,
          port.restores k.sr,
          is_list_last-is_nil v.shape (msg_head q) hm,
          ap is_nil e,
        ),
        Models-ext
            (blocked-Models v (list_delete k.links msg) (msg_head q)
              (remove msg (lists (msg_head q))) hm (omega arith)
              (Shape-list_delete v.shape (msg_head q) msg hm i)
              (ground (arith, has-remove msg null (lists (msg_head q)), v.no_null (msg_head q) hm)))
            (λ g. ground (arith, rest)),
      )

  -- With no message, `msg_get` blocks the running task last on the queue and returns EMPTY with the
  -- buffer untouched, and the processor goes to the first task of the highest priority then ready, if
  -- the scheduler is unlocked.
  pub msg_get-blocks :
      {p r : ℕ} {t : Addr} {ts : List Addr}
      → lists (msg_head q) ≡ []
      → k.schedule_is_lock ≡ false
      → p < 32
      → k.new_task ∈ ready lists p
      → length (lists q) < fuel
      → Highest (blocked lists p k.new_task q) r t ts
      → length (t ∷ ts) ≤ fuel
      → (l : Links) × (m : PrioMap) × (msg_get port fuel q buffer k
          ≡ some (empty, none, switch_to t (record k { links = l; map = m })))
        × Models head
            (switch_to t (record k { links = l; map = m }))
            (update (blocked lists p k.new_task q) (r + 1) (ts ++ t ∷ []))
  unfolding msg_get
  msg_get-blocks {p} {t} e unlocked lt i room high room' =
      let k0 : Kernel = record k { sr = (port.interrupt_disable k.sr).1 } in
      let (l, l', m, e1, e2, v1) =
        block_lem (rebase k0 v refl refl refl) q hq far fuel k.new_task p lt i room in
      let k1 : Kernel = record k { links = l'; map = m } in
      let (l2, m2, e3, v2) =
        schedule_raw port fuel (rebase k1 v1 refl refl refl) high room' unlocked in
      (
        l2,
        m2,
        ground (
          arith,
          e1,
          e2,
          e3,
          not_zero q far,
          ==_ne buffer null nb,
          port.restores k.sr,
          is_list_last-is_nil v.shape (msg_head q) hm,
          ap is_nil e,
        ),
        switch-rebase t v2,
      )
