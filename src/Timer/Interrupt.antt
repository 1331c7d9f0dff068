-- ===== src/Timer/Interrupt.antt =====
-- `hardware_timer` of kernel/timer.c, the handler of the tick interrupt, on the level of the lists.
use fos.Prelude.{
  ℕ, ◌+◌, ◌%◌, ◌^◌, ◌<◌, ◌≤◌, ◌≡◌, refl, Bool, true, false, Option, some, List, ◌∷◌, [], ◌++◌,
  arith, if◌then◌else◌, update, length, has, ap,
}
use fos.LinkedList.{Addr, Links}
use fos.LinkedList.Chain.{head_not_mem}
use fos.LinkedList.Shape.{Lists}
use fos.PrioMap.{PrioMap}
use fos.Kernel.{Kernel, Port, Tick, tick_queue}
use fos.Sched.Models.{ready, Models, rebase}
use fos.Sched.Fetch.{Highest, Models-ext}
use fos.Sched.Switch.{switch_to, switch-rebase, schedule_raw}
use fos.Timer.{hardware_timer}
use fos.Timer.Ages.{aged, kept, sleepers, fire, wake_all, Effect, Sleeping}
use fos.Timer.Queue.{next_of-first, Sleeping-to}
use fos.Timer.Position.{Position}
use fos.Timer.Walk.{walk_lem}

-- The lists after the tick, before the scheduler runs.
abbrev pub ticked : Kernel → Lists → Lists
ticked k lists =
    let ys = lists tick_queue in
    update (wake_all k.tcb (sleepers k.tick ys) lists) tick_queue (kept k.tick ys)

-- The kernel after the tick, with the list nodes, the map and the entries it is given.
abbrev pub after_tick : Effect → Kernel → List Addr → Links → PrioMap → (Addr → Tick) → Kernel
after_tick effect k ys l m tk = record k {
  fos_tick = (k.fos_tick + 1) % 2 ^ 64;
  links = l;
  map = m;
  tick = tk;
  msg = fire effect k.tick ys k.msg;
}

module _ (call : ℕ → ℕ → Kernel → Option Kernel) (effect : Effect)
    (quiet : (f a : ℕ) (k : Kernel) → call f a k ≡ some (record k { msg = effect f a k.msg }))
    (port : Port) (fuel : ℕ) {head : Addr → Bool} {k : Kernel} {lists : Lists}
    (v : Models head k lists) (ht : head tick_queue ≡ true)
    (sl : Sleeping head lists (sleepers k.tick (lists tick_queue)))
    (room : (p : ℕ) → p < 32 → length (ready lists p) + length (lists tick_queue) < fuel) where
  -- The walk starts at the head of the queue.
  at_head :
      (k0 : Kernel)
      → k0.links ≡ k.links
      → k0.tick ≡ k.tick
      → Models head k0 lists
      → Position fuel head k.tick k0 lists tick_queue [] (lists tick_queue)
  at_head k0 el et v0 = record {
    models = Models-ext v0 (λ h. ground arith);
    leads = next_of-first k0.links tick_queue (lists tick_queue) (v0.shape.chain tick_queue ht);
    ahead = head_not_mem k0.links tick_queue (lists tick_queue) (v0.shape.chain tick_queue ht);
    fresh = λ z i. ap (λ (f : Addr → Tick). f z) et;
    asleep = Sleeping-to sl (λ h. ground arith) refl;
    room = room;
  }

  pub hardware_timer_lem :
      {q : ℕ} {t : Addr} {ts : List Addr}
      → k.schedule_is_lock ≡ false
      → Highest (ticked k lists) q t ts
      → length (t ∷ ts) ≤ fuel
      → (let ys = lists tick_queue in
          (l : Links) × (m : PrioMap) × (tk : Addr → Tick) × (hardware_timer call fuel port k
            ≡ some (switch_to t (after_tick effect k ys l m tk)))
          × ((z : Addr) → tk z ≡ (if has z ys then aged (k.tick z) else k.tick z))
          × Models head
              (switch_to t (after_tick effect k ys l m tk))
              (update (ticked k lists) (q + 1) (ts ++ t ∷ [])))
  unfolding hardware_timer
  hardware_timer_lem {t} unlocked high room' =
      let k0 : Kernel = record k {
        sr = (port.interrupt_disable k.sr).1;
        fos_tick = (k.fos_tick + 1) % 2 ^ 64;
      } in
      let (l, m, tk, e, at, v1) =
        walk_lem call effect quiet fuel ht fuel tick_queue [] (lists tick_queue)
          (at_head k0 refl refl (rebase k0 v refl refl refl)) (ground (arith, room 0)) in
      let k1 : Kernel = after_tick effect k (lists tick_queue) l m tk in
      let v1' : Models head k1 (ticked k lists) = rebase k1 v1 refl refl refl in
      let (l2, m2, e2, v2) = schedule_raw port fuel v1' high room' unlocked in
      (l2, m2, tk, ground (arith, e, e2, port.restores k.sr), at, switch-rebase t v2)
