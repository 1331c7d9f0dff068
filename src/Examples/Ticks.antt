-- ===== src/Examples/Ticks.antt =====
-- The theorem on the tick interrupt, tried on a queue that holds a timer of one shot, a delay and a
-- timer that still has time.
use fos.Prelude.{ℕ, ◌≡◌, refl, some, [], ◌∷◌, ◌==◌, if◌then◌else◌, update, Option}
use fos.LinkedList.{Addr}
use fos.LinkedList.Shape.{Lists}
use fos.PrioMap.{PrioMap}
use fos.Kernel.{Kernel, Tick}
use fos.Sched.Models.{Models}
use fos.Timer.{delay_style, software_timer}
use fos.Timer.Ages.{kept, Effect}
use fos.Timer.Interrupt.{ticked}
use fos.Examples.State.{boot, lists, hang}

-- The entries 302 (fires), 304 (wakes task 212) and 306 (waits).
abbrev entries : Addr → Tick
entries t = record {
  style = if t == 304 then delay_style else software_timer;
  timeout = if t == 306 then 3 else 0;
  tcb = 212;
  func = 70;
  func_arg = 8;
  period = 0;
  timeout_copy = 5;
}

abbrev night : Kernel
night = record (hang (hang (hang boot 33 306) 33 304) 33 302) { tick = entries }

abbrev night_lists : Lists
night_lists h = if h == 33 then 302 ∷ 304 ∷ 306 ∷ [] else lists h

-- A callback writes its argument into message `arg`.
abbrev effect : Effect
effect f a msg = update msg a (record { kind = f; length = 0; buff = a })

abbrev call : ℕ → ℕ → Kernel → Option Kernel
call f a k = some (record k { msg = effect f a k.msg })

-- The tick keeps entry 306, wakes task 212 and leaves the other queues.
ticked_test : ticked night night_lists 33 ≡ 306 ∷ []
unfolding kept
ticked_test = refl
