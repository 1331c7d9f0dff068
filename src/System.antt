-- ===== src/System.antt =====
-- Whole runs of the kernel: tasks call the functions of kernel/semaphore.c, kernel/mutex.c,
-- kernel/queue.c, kernel/timer.c and kernel/prio_sched.c, and the tick interrupt comes, in any order.
pub mod Facts
pub mod Objects
pub mod Naps
pub mod Wakes
pub mod Ticking
pub mod Moves
pub mod Steady
pub mod Units
pub mod Streams
pub mod Calls
pub mod Safety
pub mod Delays
pub mod Balance
pub mod Delivery
use fos.Prelude.{
  ℕ, ◌+◌, ◌-◌, ◌||◌, ◌&&◌, ltb, if◌then◌else◌, ◌<◌, ◌≡◌, ◌≢◌, ◌∉◌, Bool, true, false, Option, some,
  List, [], ◌∷◌, ◌==◌,
}
use fos.LinkedList.{Addr, null}
use fos.LinkedList.Shape.{Lists, Loose}
use fos.Kernel.{Kernel, Port, ◌>>=◌, tick_queue, msg_head, delay, system_word}
use fos.Sched.{schedule}
use fos.Sched.Models.{Models}
use fos.Semaphore.{sem_get, sem_put}
use fos.Mutex.{mutex_get, mutex_put}
use fos.Timer.{timer_req, os_delay, hardware_timer}
use fos.Timer.Ages.{Effect}
use fos.MessageQueue.{msg_put, msg_get}
use fos.Task.{Words, task_prio_change, task_create}

-- Which addresses hold what: the list heads, the semaphores, mutexes and queues among them, the heads of
-- messages, the tasks, software timers and messages; and the idle task. Memory ends at `size`.
pub record Layout : Type 0 where
  pub size : ℕ
  pub head : Addr → Bool
  pub sem : Addr → Bool
  pub mutex : Addr → Bool
  pub queue : Addr → Bool
  pub stores : Addr → Bool
  pub task : Addr → Bool
  pub timer : Addr → Bool
  pub message : Addr → Bool
  pub idle : Addr
  pub ticks : head tick_queue ≡ true
  pub sem_head : (s : Addr) → sem s ≡ true → (head s ≡ true) × (tick_queue < s) × (stores s ≡ false)
  pub mutex_head :
      (m : Addr)
      → mutex m ≡ true
      → (head m ≡ true) × (tick_queue < m) × (stores m ≡ false) × (sem m ≡ false)
  pub queue_head :
      (q : Addr)
      → queue q ≡ true
      → (head q ≡ true)
        × (head (msg_head q) ≡ true)
        × (tick_queue < q)
        × (stores q ≡ false)
        × (stores (msg_head q) ≡ true)
  pub stores_far : (h : Addr) → stores h ≡ true → tick_queue < h
  pub apart : (s q : Addr) → sem s ≡ true → queue q ≡ true → s ≢ q
  pub task_node :
      (t : Addr) → task t ≡ true → (head t ≡ false) × (timer t ≡ false) × (message t ≡ false)
  pub delay_node :
      (t : Addr)
      → task t ≡ true
      → (head (delay t) ≡ false)
        × (task (delay t) ≡ false)
        × (timer (delay t) ≡ false)
        × (message (delay t) ≡ false)
        × (delay t < size)

-- What may stand in the list of a head: on the tick queue software timers and the delays of tasks,
-- in the messages of a queue messages, and tasks elsewhere.
abbrev pub may_hold : Layout → Addr → Addr → Bool
may_hold o h a =
    if h == tick_queue
    then o.timer a || (ltb 0 a && o.task (a - 1))
    else if o.stores h
    then o.message a
    else o.task a

-- A call of the running task, or the tick interrupt. A call that creates a task finds some memory for stacks.
pub data Call : Type 0 where
  do_sem_get : Addr → Call
  do_sem_put : Addr → Call
  do_mutex_get : Addr → Call
  do_mutex_put : Addr → Call
  do_msg_put : Addr → Addr → ℕ → Call
  do_msg_get : Addr → Addr → Call
  do_schedule : Call
  do_timer_req : Addr → ℕ → ℕ → ℕ → ℕ → Call
  do_os_delay : ℕ → Call
  do_hardware_timer : Call
  do_task_prio_change : Addr → ℕ → Call
  do_task_create : (tcb name fun arg stack stack_size prio state : ℕ) → Words → Call

-- The environment: the processor port with its `stack_init`, the host's `memset`, and the callbacks of
-- software timers, which are taken to return and to change nothing of the kernel but message memory.
pub record World : Type 0 where
  pub port : Port
  pub stack_init : ℕ → ℕ → ℕ → ℕ → ℕ
  pub memset : ℕ → ℕ → ℕ → Words → Words
  pub callback : ℕ → ℕ → Kernel → Option Kernel
  pub effect : Effect
  pub quiet : (f a : ℕ) (k : Kernel) → callback f a k ≡ some (record k { msg = effect f a k.msg })

-- What a call does to the kernel.
unfoldable pub run : World → ℕ → Call → Kernel → Option Kernel
run w fuel (do_sem_get s) k = sem_get w.port fuel s k >>= λ x. some x.1
run w fuel (do_sem_put s) k = sem_put w.port fuel s k >>= λ x. some x.1
run w fuel (do_mutex_get m) k = mutex_get w.port fuel m k >>= λ x. some x.1
run w fuel (do_mutex_put m) k = mutex_put w.port fuel m k >>= λ x. some x.1
run w fuel (do_msg_put q msg method) k = msg_put w.port fuel q msg method k >>= λ x. some x.1
run w fuel (do_msg_get q buffer) k = msg_get w.port fuel q buffer k >>= λ x. some x.2
run w fuel do_schedule k = schedule w.port fuel k
run w fuel (do_timer_req timer func timeout period arg) k =
    timer_req w.port fuel timer func timeout period arg k
run w fuel (do_os_delay timeslice) k = os_delay w.port fuel timeslice k
run w fuel do_hardware_timer k = hardware_timer w.callback fuel w.port k
run w fuel (do_task_prio_change tcb prio) k = task_prio_change tcb prio k >>= λ x. some x.1
run w fuel (do_task_create tcb name fun arg stack stack_size prio state mem) k =
    task_create w.memset w.stack_init fuel tcb name fun arg stack stack_size prio state k mem
    >>= λ x. some x.1

-- What a caller keeps to: the objects are there; the idle task neither blocks nor changes its priority,
-- by a mutex or by itself; a task changes its own priority, and not to 32; a message that is put, a timer
-- that is started and a task that is created are in no list, nor is the task's delay.
abbrev pub Allowed : Layout → Call → Kernel → Lists → Type 0
Allowed o (do_sem_get s) k lists = (o.sem s ≡ true) × (k.new_task ≢ o.idle)
Allowed o (do_sem_put s) k lists = o.sem s ≡ true
Allowed o (do_mutex_get m) k lists = (o.mutex m ≡ true) × (k.new_task ≢ o.idle)
Allowed o (do_mutex_put m) k lists = (o.mutex m ≡ true) × (k.new_task ≢ o.idle)
Allowed o (do_msg_put q msg method) k lists =
    (o.queue q ≡ true)
    × Loose o.head lists msg
    × (msg ≢ null)
    × (msg < o.size)
    × (o.message msg ≡ true)
Allowed o (do_msg_get q buffer) k lists =
    (o.queue q ≡ true) × (buffer ≢ null) × (k.new_task ≢ o.idle)
Allowed o do_schedule k lists = Unit
Allowed o (do_timer_req timer func timeout period arg) k lists =
    (o.timer timer ≡ true)
    × Loose o.head lists timer
    × (timer ≢ null)
    × (timer < o.size)
    × (func ≢ null)
    × (timeout ≢ 0)
Allowed o (do_os_delay timeslice) k lists = k.new_task ≢ o.idle
Allowed o do_hardware_timer k lists = Unit
Allowed o (do_task_prio_change tcb prio) k lists =
    (prio ≢ system_word) × (tcb ≡ k.new_task) × (k.new_task ≢ o.idle)
Allowed o (do_task_create tcb name fun arg stack stack_size prio state mem) k lists =
    (o.task tcb ≡ true)
    × Loose o.head lists tcb
    × (delay tcb ∉ lists tick_queue)
    × (tcb ≢ null)
    × (fun ≢ null)
    × (stack ≢ null)
    × (prio < 32)

-- The kernel after calls that each kept to that, the last call first.
pub data Runs (w : World) (o : Layout) (k0 : Kernel) : List Call → Kernel → Type 0 where
  start : Runs w o k0 [] k0
  call :
      {cs : List Call} {k k' : Kernel}
      → Runs w o k0 cs k
      → (c : Call) → ((lists : Lists) → Models o.head k lists → Allowed o c k lists)
      → run w o.size c k ≡ some k'
      → Runs w o k0 (c ∷ cs) k'
