-- ===== src/Timer/Sleep.antt =====
-- `os_delay` and `timer_req` of kernel/timer.c on the level of the lists.
use fos.Prelude.{
  ℕ, ◌+◌, ◌<◌, ◌≤◌, ◌%◌, ◌≡◌, ◌≢◌, refl, Bool, true, false, some, List, ◌∷◌, [], ◌++◌, arith,
  update, length, ◌∈◌, remove, ==_ne, has-remove, has-append,
}
use fos.LinkedList.{Addr, Links, null, list_insert_behind}
use fos.LinkedList.Shape.{Lists, Loose, Shape-list_insert_behind}
use fos.PrioMap.{PrioMap}
use fos.Kernel.{Kernel, Port, tick_queue, delay}
use fos.Sched.Models.{ready, Models, rebase}
use fos.Sched.Models.Queues.{delete-at, blocked-Models}
use fos.Sched.Fetch.{Highest, Models-ext}
use fos.Sched.Switch.{switch_to, switch-rebase, schedule_raw}
use fos.Timer.{set_tick, timer_req, os_delay, software_timer, delay_style}

-- The lists after task `c` of priority `p` has gone to sleep.
abbrev pub asleep : Lists → ℕ → Addr → Lists
asleep lists p c =
    update (update lists (p + 1) (remove c (ready lists p))) tick_queue
      (lists tick_queue ++ delay c ∷ [])

-- A node that hangs last on a list that is no ready queue.
hang_lem :
    {head : Addr → Bool} {k : Kernel} {lists : Lists} (v : Models head k lists) (fuel : ℕ)
    (h t : Addr)
    → head h ≡ true
    → 32 < h
    → Loose head lists t
    → t ≢ null
    → length (lists h) < fuel
    → (l : Links) × (list_insert_behind fuel k.links h t ≡ some l)
      × Models head (record k { links = l }) (update lists h (lists h ++ t ∷ []))
hang_lem {lists} v fuel h t hh far o ne room =
    let (l, e, s) = Shape-list_insert_behind v.shape fuel h t hh o room in
    (
      l,
      e,
      blocked-Models v l h (lists h ++ t ∷ []) hh far s
          (ground (arith, has-append null (lists h) (t ∷ []), v.no_null h hh)),
    )

module _ (port : Port) (fuel : ℕ) {head : Addr → Bool} {k : Kernel} {lists : Lists}
    (v : Models head k lists) (ht : head tick_queue ≡ true)
    (room : length (lists tick_queue) < fuel) where
  -- With a callback, a timer and a time that are not zero, `timer_req` hangs the timer last on the tick queue with the callback, the time and the period
  -- that it is given, and changes nothing else.
  pub timer_req-hangs :
      (timer func timeout period arg : ℕ)
      → func ≢ null
      → timer ≢ null
      → timeout ≢ 0
      → Loose head lists timer
      → (l : Links) × (timer_req port fuel timer func timeout period arg k
          ≡ some
              (record (set_tick k timer (record (k.tick timer) {
                func = func;
                timeout = timeout;
                period = period % 256;
                timeout_copy = timeout;
                style = software_timer;
                func_arg = arg;
              })) { links = l }))
        × Models head
            (record k { links = l })
            (update lists tick_queue (lists tick_queue ++ timer ∷ []))
  unfolding timer_req
  timer_req-hangs timer func timeout period arg nf nt nz o =
      let (l, e, v1) = hang_lem v fuel tick_queue timer ht (omega arith) o nt room in
      (
        l,
        ground (
          arith,
          e,
          ==_ne func null nf,
          ==_ne timer null nt,
          ==_ne timeout 0 nz,
          port.restores k.sr,
        ),
        v1,
      )

  -- `os_delay` takes the running task off its ready queue, hangs its delay last on the tick queue
  -- with the time that it is given, and, with the scheduler unlocked, gives the processor to the
  -- highest ready priority.
  pub os_delay-sleeps :
      (timeslice : ℕ) {p q : ℕ} {t : Addr} {ts : List Addr}
      → k.schedule_is_lock ≡ false
      → p < 32
      → k.new_task ∈ ready lists p
      → Loose head lists (delay k.new_task)
      → Highest (asleep lists p k.new_task) q t ts
      → length (t ∷ ts) ≤ fuel
      → (let c = k.new_task in
          let k' : Kernel = set_tick k (delay c) (record (k.tick (delay c)) {
            tcb = c;
            timeout = timeslice;
            timeout_copy = timeslice;
            style = delay_style;
          }) in
          (l : Links) × (m : PrioMap) × (os_delay port fuel timeslice k
            ≡ some (switch_to t (record k' { links = l; map = m })))
          × Models head
              (switch_to t (record k' { links = l; map = m }))
              (update (asleep lists p c) (q + 1) (ts ++ t ∷ [])))
  unfolding os_delay
  os_delay-sleeps timeslice {p} {t} unlocked lt i o high room' =
      let c = k.new_task in
      let k' : Kernel = set_tick k (delay c) (record (k.tick (delay c)) {
        tcb = c;
        timeout = timeslice;
        timeout_copy = timeslice;
        style = delay_style;
      }) in
      let k0 : Kernel = record k' { sr = (port.interrupt_disable k.sr).1 } in
      let v0 = rebase k0 v refl refl refl in
      let (l, m, e1, v1) = delete-at v0 c p (v.queued p c lt i) i in
      let o1 : Loose head (update lists (p + 1) (remove c (ready lists p))) (delay c) = record {
        free = λ h hh. ground (
          arith,
          o.free h hh,
          has-remove c (delay c) (ready lists p),
          o.free (p + 1) (v.statics p lt),
        );
        no_head = o.no_head;
      } in
      let (l1, e2, v2) =
        hang_lem v1 fuel tick_queue (delay c) ht (omega arith) o1 (omega arith)
          (ground (arith, room)) in
      let k2 : Kernel = record k' { links = l1; map = m } in
      let v2' : Models head k2 (asleep lists p c) =
        Models-ext (rebase k2 v2 refl refl refl) (λ g. ground arith) in
      let (l3, m3, e3, v3) = schedule_raw port fuel v2' high room' unlocked in
      (l3, m3, ground (arith, e1, e2, e3, port.restores k.sr), switch-rebase t v3)
