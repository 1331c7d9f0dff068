-- ===== src/Start/Boot.antt =====
-- The kernel as `system_init` of app/system_start.c leaves it.
use fos.Prelude.{
  ℕ, ◌<◌, ◌≡◌, ◌≢◌, refl, Bool, true, ◌&&◌, some, [], ◌∷◌, arith, ltb, ◌==◌, if◌then◌else◌,
}
use fos.LinkedList.{Addr, null, list_init}
use fos.LinkedList.Shape.{Lists}
use fos.Kernel.{Kernel, Tcb}
use fos.Sched.{prio_ready_queue_init}
use fos.Sched.Init.{prio_ready_queue_init_self}
use fos.Sched.Models.{Models, empty-Models}
use fos.Sched.Fetch.{Highest, Models-ext}
use fos.Timer.{tick_queue_init}
use fos.Device.{device_queue_init}
use fos.Task.{Words, set_tcb}
use fos.Task.Create.{task_create-queues}
use fos.Start.{Board, system_init, idle_stack_size}

-- The heads: the ready queues and the tick queue.
abbrev pub head : Addr → Bool
head h = ltb 0 h && ltb h 34

-- The idle task is ready at priority 31, and nothing else is in a list.
abbrev pub only_idle : Addr → Lists
only_idle idle_tcb h = if h == 32 then idle_tcb ∷ [] else []

heads_self :
    (k : Kernel) (h : Addr)
    → head h ≡ true
    → (tick_queue_init (prio_ready_queue_init k)).links.next h ≡ h
unfolding tick_queue_init list_init
heads_self k h hh = ground (arith, prio_ready_queue_init_self k h)

queues-Models :
    (k : Kernel)
    → k.map.y ≡ 0
    → ((b : ℕ) → k.map.c b ≡ 0)
    → ((t : Addr) → (k.tcb t).prio < 32)
    → Models head (record (tick_queue_init (prio_ready_queue_init k)) { old_task = null }) (λ h. [])
unfolding tick_queue_init prio_ready_queue_init
queues-Models k y c prios = empty-Models (heads_self k) y c prios (λ p lt. ground arith)

-- From a cleared map, with every task of a priority below 32, and with an idle task that is no head,
-- `system_init` returns. The kernel's invariant then holds with exactly the idle task ready, so that
-- it is the first task of the highest ready priority, and the lock of the scheduler is as it was.
pub system_init-Models :
    (memset : ℕ → ℕ → ℕ → Words → Words) (stack_init : ℕ → ℕ → ℕ → ℕ → ℕ) (fuel : ℕ)
    (idle_tcb idle_name idle_task idle_stack : ℕ) (b : Board)
    → b.kernel.map.y ≡ 0
    → ((i : ℕ) → b.kernel.map.c i ≡ 0)
    → ((t : Addr) → (b.kernel.tcb t).prio < 32)
    → 33 < idle_tcb
    → idle_task ≢ null
    → idle_stack ≢ null
    → 0 < fuel
    → (b' : Board) × (system_init memset stack_init fuel idle_tcb idle_name idle_task idle_stack b
        ≡ some b')
      × Models head b'.kernel (only_idle idle_tcb)
      × Highest (only_idle idle_tcb) 31 idle_tcb []
      × (b'.kernel.schedule_is_lock ≡ b.kernel.schedule_is_lock)
unfolding system_init tick_queue_init prio_ready_queue_init
system_init-Models memset stack_init fuel idle_tcb idle_name idle_task idle_stack b y c prios far nf
      ns room =
    let k : Kernel = record (tick_queue_init (prio_ready_queue_init b.kernel)) {
      old_task = null;
    } in
    let x : Tcb = record {
      stack_ptr = stack_init idle_stack idle_stack_size idle_task null;
      name = idle_name;
      prio = 31;
      state = 1;
    } in
    let (l, m, e, v) =
      task_create-queues memset stack_init fuel (queues-Models b.kernel y c prios) idle_tcb
        idle_name idle_task null idle_stack idle_stack_size 31 1 b.words (omega arith) nf ns
        (omega arith) (record { free = λ h hh. refl; no_head = ground arith }) room in
    (
      record {
        kernel = record (set_tcb k idle_tcb x) { links = l; map = m };
        devices = device_queue_init b.devices;
        words = memset idle_stack 0 idle_stack_size b.words;
      },
      ground (arith, e),
      Models-ext v (λ h. ground arith),
      record { in_range = omega arith; first = refl; none_above = λ q h. ground arith },
      refl,
    )
