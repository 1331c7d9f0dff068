-- ===== src/Kernel.antt =====
-- The state that the kernel's files share: kernel/include/var_define.h, kernel/var_define.c and
-- kernel/include/queue.h. All structures live in one memory. A structure goes by the address of its
-- first LIST member; a second one (`delay.list` of a TCB, `msg_head` of a QUEUE) stands at the next
-- address. The heads of `task_prio_queue` stand at 1 to 32, the head of `tick_queue` at 33.
use fos.Prelude.{ℕ, ◌+◌, ◌≡◌, Bool, Option, none, some, ltb, if◌then◌else◌, update}
use fos.LinkedList.{Addr, Links}
use fos.PrioMap.{PrioMap}

-- A chain of steps that may end in `none`: a failed assertion (`while(1)`), a walk along a list that
-- does not end, or an access outside `task_prio_queue`.
infixl 5 ◌>>=◌
abbrev pub ◌>>=◌ {ℓ κ} : {A : Type ℓ} {B : Type κ} → Option A → (A → Option B) → Option B
none >>= f = none
some a >>= f = f a

-- The codes of the anonymous `enum`, and TRUE.
abbrev pub true_code : ℕ
true_code = 1

abbrev pub false_code : ℕ
false_code = 0

abbrev pub no_semaphore : ℕ
no_semaphore = 10

abbrev pub no_mutex : ℕ
no_mutex = 11

abbrev pub no_tcb : ℕ
no_tcb = 13

abbrev pub no_sched : ℕ
no_sched = 14

abbrev pub sched : ℕ
sched = 15

abbrev pub system_word : ℕ
system_word = 32

-- TICK. `func` and `func_arg` name a callback and its argument.
pub record Tick : Type 0 where
  pub style : ℕ
  pub timeout : ℕ
  pub tcb : Addr
  pub func : ℕ
  pub func_arg : ℕ
  pub period : ℕ
  pub timeout_copy : ℕ

-- TCB, less the TICK `delay` in it, which has an address of its own.
pub record Tcb : Type 0 where
  pub stack_ptr : ℕ
  pub name : ℕ
  pub prio : ℕ
  pub state : ℕ

-- The address of `&tcb->delay`.
abbrev pub delay : Addr → Addr
delay tcb = tcb + 1

pub record Sem : Type 0 where
  pub count : ℕ
  pub name : ℕ
  pub tcb : Addr

pub record Mutex : Type 0 where
  pub enable : ℕ
  pub name : ℕ
  pub copy_prio : ℕ
  pub tcb : Addr

pub record Queue : Type 0 where
  pub length : ℕ
  pub count : ℕ
  pub name : ℕ

-- The address of `&queue->msg_head`.
abbrev pub msg_head : Addr → Addr
msg_head queue = queue + 1

-- `buff` stands for the five bytes that `msg_get` copies.
pub record Msg : Type 0 where
  pub kind : ℕ
  pub length : ℕ
  pub buff : ℕ

-- The globals and the memory. `sr` is the interrupt state of the processor, `context` the stack
-- pointer whose context it runs.
pub record Kernel : Type 0 where
  pub links : Links
  pub map : PrioMap
  pub tcb : Addr → Tcb
  pub tick : Addr → Tick
  pub sem : Addr → Sem
  pub mutex : Addr → Mutex
  pub queue : Addr → Queue
  pub msg : Addr → Msg
  pub new_task : Addr
  pub old_task : Addr
  pub schedule_is_lock : Bool
  pub fos_tick : ℕ
  pub sr : ℕ
  pub context : ℕ

-- What the kernel asks of a processor port: `interrupt_disable` returns a word and changes the
-- interrupt state; `interrupt_enable` is given that word back, and restores the state.
pub record Port : Type 0 where
  pub interrupt_disable : ℕ → ℕ × ℕ
  pub interrupt_enable : ℕ → ℕ → ℕ
  pub restores : (s : ℕ) → interrupt_enable (interrupt_disable s).0 (interrupt_disable s).1 ≡ s

-- `&task_prio_queue[prio].list`; outside the array there is none.
abbrev pub task_prio_queue : ℕ → Option Addr
task_prio_queue prio = if ltb prio system_word then some (prio + 1) else none

abbrev pub tick_queue : Addr
tick_queue = 33

abbrev pub set_prio : Kernel → Addr → ℕ → Kernel
set_prio k t prio = record k { tcb = update k.tcb t (record (k.tcb t) { prio = prio }) }

module _ (port : Port) where
  abbrev pub interrupt_disable : Kernel → ℕ × Kernel
  interrupt_disable k =
      ((port.interrupt_disable k.sr).0, record k { sr = (port.interrupt_disable k.sr).1 })

  abbrev pub interrupt_enable : ℕ → Kernel → Kernel
  interrupt_enable cpu_sr k = record k { sr = port.interrupt_enable cpu_sr k.sr }
