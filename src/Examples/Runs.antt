-- ===== src/Examples/Runs.antt =====
-- The theorems on runs of the kernel, tried on runs of one call or two from the state of State.
use fos.Prelude.{
  ◌++◌, ℕ, ◌∈◌, ◌≢◌, length, ◌+◌, ◌-◌, ◌<◌, ◌≤◌, ◌^◌, ◌≡◌, ◌==◌, refl, true, some, [], ◌∷◌, arith,
  has,
}
use fos.LinkedList.{Addr, Links, is_list_last}
use fos.LinkedList.Shape.{Lists}
use fos.PrioMap.{PrioMap}
use fos.Kernel.{Kernel, msg_head}
use fos.Semaphore.{set_sem}
use fos.Semaphore.Blocking.{sem_put-counts}
use fos.System.{
  Layout, World, Runs, start, call, run, do_sem_put, do_msg_get, do_os_delay, do_hardware_timer,
}
use fos.System.Facts.{Facts, Sound}
use fos.System.Safety.{Runs-Sound, Runs-returns, Runs-counts, Runs-IsTop}
use fos.System.Balance.{Runs-balance}
use fos.System.Calls.{Kept}
use fos.System.Calls.Messages.Get.{msg_get-Kept}
use fos.System.Delivery.{sent, got, handed, contents, Runs-fifo}
use fos.System.Delays.{Runs-sleeps, Runs-wakes}
use fos.System.Calls.Ticks.{os_delay-Asleep, hardware_timer-Kept}
use fos.Sched.Models.{ready, Models}
use fos.Examples.State.{head, port, boot, lists, boot-Models, boot-Highest}

abbrev pub layout : Layout
layout = record {
  size = 400;
  head = head;
  sem = λ a. has a (100 ∷ 102 ∷ []);
  mutex = λ a. has a (110 ∷ 112 ∷ []);
  queue = λ a. has a (120 ∷ 122 ∷ []);
  stores = λ a. has a (121 ∷ 123 ∷ []);
  task = λ a. has a (200 ∷ 202 ∷ 204 ∷ 206 ∷ 208 ∷ 210 ∷ []);
  timer = λ a. has a (302 ∷ []);
  message = λ a. has a (300 ∷ 304 ∷ []);
  idle = 204;
  ticks = refl;
  sem_head = λ s h. ground arith;
  mutex_head = λ m h. ground arith;
  queue_head = λ q h. ground arith;
  stores_far = λ q h. ground arith;
  apart = λ s q hs hq. ground arith;
  task_node = λ t h. ground arith;
  delay_node = λ t h. ground arith;
}

boot-Facts : Facts layout boot lists
boot-Facts = record {
  unlocked = refl;
  idle = refl;
  small = λ h a hh i. ground arith;
  units = λ s hs u. ground arith;
  units_max = λ s hs. ground arith;
  counted = λ q hq. ground arith;
  fits = λ q hq. ground arith;
  roles = λ h a hh i. ground arith;
  naps = λ t ht i. absurd (ground arith);
  ceiling = λ m hm. ground arith;
  timers = λ a ha i. absurd (ground arith);
}

pub boot-Sound : Sound layout boot lists
boot-Sound = record { models = boot-Models; running = (3, omega arith, refl); facts = boot-Facts }

abbrev pub world : World
world = record {
  port = port;
  stack_init = λ stack size fun arg. stack + size - 16;
  memset = λ s byte n mem. mem;
  callback = λ f a k. some k;
  effect = λ f a msg. msg;
  quiet = λ f a k. refl;
}

pub put_once :
    (l : Links) × (m : PrioMap) × (run world 400 (do_sem_put 102) boot
      ≡ some
          (record (set_sem boot 102 (record (boot.sem 102) { count = 3 })) { links = l; map = m }))
unfolding run
put_once =
    let (l, m, e, v) =
      sem_put-counts port 400 boot-Models 102 refl (omega arith) refl refl boot-Highest
        (omega arith) in
    (l, m, rw e refl)

abbrev pub after_put : Kernel
after_put = record (set_sem boot 102 (record (boot.sem 102) { count = 3 })) {
  links = put_once.0;
  map = put_once.1;
}

one_call : Runs world layout boot (do_sem_put 102 ∷ []) after_put
one_call = call start (do_sem_put 102) (λ ls v. refl) put_once.2

Runs-Sound_example : (ls : Lists) × Sound layout after_put ls
Runs-Sound_example = Runs-Sound world boot-Sound one_call

Runs-returns_example : (k' : Kernel) × (run world 400 do_hardware_timer after_put ≡ some k')
Runs-returns_example = Runs-returns world boot-Sound one_call do_hardware_timer (λ ls v. tt)

Runs-counts_example :
    ((s : Addr) → has s (100 ∷ 102 ∷ []) ≡ true → (after_put.sem s).count < 2 ^ 32)
    × ((q : Addr)
        → has q (120 ∷ 122 ∷ []) ≡ true
        → ((after_put.queue q).count ≤ (after_put.queue q).length)
          × (((after_put.queue q).count == 0) ≡ is_list_last after_put.links (msg_head q)))
Runs-counts_example = Runs-counts world boot-Sound one_call

Runs-IsTop_example :
    (ls : Lists) × Models head after_put ls
    × (after_put.new_task ∈ ready ls (after_put.tcb after_put.new_task).prio)
    × ((p : ℕ) (t : Addr) → p < 32 → t ∈ ready ls p → (after_put.tcb after_put.new_task).prio ≤ p)
Runs-IsTop_example = Runs-IsTop world boot-Sound one_call refl

Runs-balance_example :
    (ls : Lists) × Models head after_put ls
    × ((after_put.sem 102).count ≡ 3)
    × (length (ls 102) ≡ 0)
Runs-balance_example = Runs-balance world boot-Sound 102 refl one_call (omega arith)

-- The running task goes to sleep for one tick, and a tick comes.
not_idle : boot.new_task ≢ 204
not_idle e = absurd (ground (arith, e))

abbrev napping : Kernel
napping = (os_delay-Asleep world boot-Sound 1 not_idle).0

boot-naps : run world 400 (do_os_delay 1) boot ≡ some napping
unfolding run
boot-naps = (os_delay-Asleep world boot-Sound 1 not_idle).2

napping-Sound : Sound layout napping (os_delay-Asleep world boot-Sound 1 not_idle).1
napping-Sound = (os_delay-Asleep world boot-Sound 1 not_idle).3

abbrev dozing : Kernel
dozing = (hardware_timer-Kept world napping-Sound).0

one_tick : Runs world layout napping (do_hardware_timer ∷ []) dozing
one_tick = call start do_hardware_timer (λ ls v. tt) (hardware_timer-Kept world napping-Sound).2

Runs-sleeps_example : dozing.new_task ≢ 200
Runs-sleeps_example = Runs-sleeps world 1 boot-Sound not_idle boot-naps one_tick (omega arith)

Runs-wakes_example :
    (k' : Kernel) × (ls : Lists) × (run world 400 do_hardware_timer dozing ≡ some k')
    × Sound layout k' ls
    × (200 ∈ ready ls (k'.tcb 200).prio)
Runs-wakes_example = Runs-wakes world 1 boot-Sound not_idle boot-naps one_tick refl

-- The running task fetches the message of queue 120.
getting-Kept : Kept world layout (do_msg_get 120 500) boot lists
getting-Kept = msg_get-Kept world boot-Sound 120 refl 500 (λ e. absurd (omega (arith, e))) not_idle

one_get : Runs world layout boot (do_msg_get 120 500 ∷ []) getting-Kept.0
one_get =
    call start (do_msg_get 120 500) (λ ls v. (refl, (λ e. absurd (omega (arith, e))), not_idle))
      getting-Kept.2

Runs-fifo_example :
    (ls : Lists) × Models head getting-Kept.0 ls
    × ((300 ∷ []) ++ sent 120 one_get ≡ got 120 one_get ++ ls 121)
    × (handed 120 one_get ≡ contents 120 one_get)
Runs-fifo_example = Runs-fifo world boot-Sound 120 refl one_get (refl, tt)
