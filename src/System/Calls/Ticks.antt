-- ===== src/System/Calls/Ticks.antt =====
-- One call of `timer_req` or `os_delay`, and one tick interrupt.
use fos.Prelude.{
  ℕ, ◌+◌, ◌-◌, ◌%◌, ◌<◌, ◌≡◌, ◌≢◌, ◌∈◌, [], has-append, refl, true, ◌∷◌, arith, length, some, ap,
  has, List, ◌≤◌, if◌then◌else◌, length-remove_lower,
}
use fos.LinkedList.{Addr, null}
use fos.LinkedList.Shape.{Lists, Loose, Loose-list_delete}
use fos.Kernel.{Kernel, Tick, tick_queue, delay, msg_head}
use fos.Sched.Models.{ready, rebase}
use fos.Sched.Fetch.{Highest}
use fos.Timer.{os_delay, set_tick, software_timer, delay_style}
use fos.Timer.Sleep.{asleep, timer_req-hangs, os_delay-sleeps}
use fos.Timer.Ages.{aged}
use fos.Timer.Interrupt.{hardware_timer_lem}
use fos.System.{Layout, World, do_timer_req, do_os_delay, do_hardware_timer, run}
use fos.System.Facts.{Sound, refact}
use fos.System.Facts.Queued.{some-Highest}
use fos.System.Naps.{hung-Facts, asleep-Facts, delay-Loose}
use fos.System.Ticking.{ticked_far, ticked-Facts, short_ticked, short_tick, sleepers-Sleeping}
use fos.System.Streams.{Flows, still, flows_on, messages_far}
use fos.System.Units.{Balances, level, turned}
use fos.System.Steady.{
  chosen, IsTop, Steady, Asleep, settled-Asleep, steady_hung, settled, settled-Older,
}
use fos.System.Steady.Ticked.{ticked-Older}
use fos.System.Calls.{Kept, settle, short}

module _ (world : World) {o : Layout} {k : Kernel} {lists : Lists} (g : Sound o k lists) where
  pub timer_req-Kept :
      (timer func timeout period arg : ℕ)
      → o.timer timer ≡ true
      → Loose o.head lists timer
      → timer ≢ null
      → timer < o.size
      → func ≢ null
      → timeout ≢ 0
      → Kept world o (do_timer_req timer func timeout period arg) k lists
  unfolding run
  timer_req-Kept timer func timeout period arg kind loose ne lt nf nz =
      let x : Tick = record (k.tick timer) {
        func = func;
        timeout = timeout;
        period = period % 256;
        timeout_copy = timeout;
        style = software_timer;
        func_arg = arg;
      } in
      let (l, e, v) =
        timer_req-hangs world.port o.size g.models o.ticks (short world g tick_queue o.ticks) timer
          func timeout period arg nf ne nz loose in
      let k' : Kernel = record (set_tick k timer x) { links = l } in
      let (p, lp, i) = g.running in
      (
        k',
        _,
        e,
        record {
          models = rebase k' v refl refl refl;
          running = (p, lp, ground (arith, i, lp));
          facts = refact k' (hung-Facts g.facts timer x kind lt refl) refl refl refl refl refl;
        },
        steady_hung timer x (λ t ht i z. ground (arith, o.delay_node t ht, kind, ap o.timer z)) refl
            refl,
        λ no. absurd (ground arith),
        still (λ a. refl) (λ a. refl) (λ a ha. ground (arith, messages_far o a ha)),
        level (λ a. refl) (λ a. refl) refl (λ a ha. ground (arith, o.sem_head a ha)),
      )

  short_asleep :
      (p c : ℕ) {q : ℕ} {t : Addr} {ts : List Addr}
      → Highest (asleep lists p c) q t ts
      → length (t ∷ ts) ≤ o.size
  short_asleep p c {q} high = ground (
    arith,
    short world g (q + 1) (g.models.statics q high.in_range),
    ap length high.first,
    high.in_range,
    length-remove_lower c (ready lists p),
  )

  -- `os_delay` puts the running task to sleep, and leaves the other sleeping tasks alone.
  pub os_delay-Asleep :
      (timeslice : ℕ)
      → k.new_task ≢ o.idle
      → (k' : Kernel) × (lists' : Lists) × (os_delay world.port o.size timeslice k ≡ some k')
        × Sound o k' lists'
        × Steady o k lists k' lists'
        × Asleep o k.new_task timeslice k' lists'
        × IsTop k' lists'
        × Flows o (do_os_delay timeslice) k lists lists'
        × Balances o (do_os_delay timeslice) k lists k' lists'
  os_delay-Asleep timeslice ni =
      let c = k.new_task in
      let (p, lp, i) = g.running in
      let hp = g.models.statics p lp in
      let x : Tick = record (k.tick (delay c)) {
        tcb = c;
        timeout = timeslice;
        timeout_copy = timeslice;
        style = delay_style;
      } in
      let gone = Loose-list_delete g.models.shape (p + 1) c hp i in
      let f = asleep-Facts g.facts p c lp hp i x ni gone refl refl in
      let (q, t, ts, h) = some-Highest f in
      let (l, m, e, v) =
        os_delay-sleeps world.port o.size g.models o.ticks (short world g tick_queue o.ticks)
          timeslice g.facts.unlocked lp i (delay-Loose g.facts p c lp hp i) h
          (short_asleep p c h) in
      let others : (u : Addr) → o.task u ≡ true → delay u ∈ lists tick_queue → delay u ≢ delay c =
        λ u hu j z.
          ground (
            arith,
            (g.facts.naps u hu j).2 (p + 1) hp,
            i,
            ap (λ a. has (a - 1) (ready lists p)) z,
          ) in
      (
        _,
        _,
        e,
        settle f h l m v,
        settled h f l m (steady_hung (delay c) x others refl refl),
        settled-Asleep h f
            (record {
              task = ground (arith, g.facts.roles (p + 1) c hp i, lp, o.stores_far (p + 1));
              hangs = ground (arith, has-append (delay c) (lists tick_queue) (delay c ∷ []));
              left = ground arith;
            })
            l m,
        chosen h _,
        flows_on h
            (still (λ a. refl) (λ a. refl) (λ a ha. ground (arith, lp, messages_far o a ha))),
        turned h f
            (level (λ a. refl) (λ a. refl) refl (λ a ha. ground (arith, lp, o.sem_head a ha))) _
            refl,
      )

  pub os_delay-Kept :
      (timeslice : ℕ) → k.new_task ≢ o.idle → Kept world o (do_os_delay timeslice) k lists
  unfolding run
  os_delay-Kept timeslice ni =
      let (k', lists', e, g', s, a, top, fl, b) = os_delay-Asleep timeslice ni in
      (k', lists', e, g', s, λ yes. top, fl, b)

  pub hardware_timer-Kept : Kept world o do_hardware_timer k lists
  unfolding run
  hardware_timer-Kept =
      let ys = lists tick_queue in
      let tk0 : Addr → Tick = λ z. if has z ys then aged (k.tick z) else k.tick z in
      let f0 = ticked-Facts g world.effect k.links k.map tk0 (λ z. refl) in
      let (q, t, ts, h) = some-Highest f0 in
      let (l, m, tk, e, at, v) =
        hardware_timer_lem world.callback world.effect world.quiet world.port o.size g.models
          o.ticks (sleepers-Sleeping g) (short_tick g) g.facts.unlocked h (short_ticked g h) in
      (
        _,
        _,
        e,
        settle (ticked-Facts g world.effect k.links k.map tk at) h l m v,
        settled-Older h (ticked-Facts g world.effect l m tk at)
            (ticked-Older g world.effect l m tk at),
        λ yes. chosen h _,
        flows_on h (
            still (λ a. refl) (λ a. refl)
              (λ a ha. ticked_far g (msg_head a) (messages_far o a ha))),
        turned h (ticked-Facts g world.effect l m tk at)
            (level (λ a. refl) (λ a. refl) refl
              (λ a ha. ticked_far g a (ground (arith, o.sem_head a ha))))
            _ refl,
      )
