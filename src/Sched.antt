-- ===== src/Sched.antt =====
-- kernel/prio_sched.c: the ready queues and the scheduler.
pub mod Init
pub mod Models
pub mod Fetch
pub mod Block
pub mod Switch
pub mod Ready
pub mod Tail
use fos.Prelude.{
  ℕ, zero, suc, ◌+◌, Bool, true, false, Option, none, some, ◌==◌, if◌then◌else◌, get_or,
}
use fos.LinkedList.{
  Addr, null, Links, is_list_last, list_init, list_insert_spec, list_delete, list_insert_behind,
}
use fos.PrioMap.{bitmap_set, bitmap_get, bitmap_clear}
use fos.Kernel.{
  Kernel, Port, ◌>>=◌, no_sched, sched, task_prio_queue, interrupt_disable, interrupt_enable,
}

-- `OS_ASSERT(tcb)`
abbrev pub os_assert : Addr → Kernel → Option Kernel
os_assert p k = if p == null then none else some k

-- `list_entry(task_prio_queue[i].list.next, TCB, list)` for the priority that the map gives. In an
-- empty queue that is the head itself, never NULL.
unfoldable pub bit_first_one_search : Kernel → Option Addr
bit_first_one_search k = do
  prio_list_head ← task_prio_queue (bitmap_get k.map)
  some (k.links.next prio_list_head)

-- `for (i = 0; i < SYSTEM_WORD; i++) list_init(...)`, over the rounds left.
init_queues : ℕ → ℕ → Links → Links
init_queues zero i l = l
init_queues (suc n) i l = init_queues n (i + 1) (list_init l (i + 1))

unfoldable pub prio_ready_queue_init : Kernel → Kernel
unfolding init_queues
prio_ready_queue_init k = record k { links = init_queues 32 0 k.links }

unfoldable pub prio_ready_queue_insert_head : Addr → Kernel → Option Kernel
prio_ready_queue_insert_head tcb k = do
  k ← os_assert tcb k
  let k = record k { map = bitmap_set k.map (k.tcb tcb).prio }
  head ← task_prio_queue (k.tcb tcb).prio
  some (record k { links = list_insert_spec k.links head tcb })

unfoldable pub prio_ready_queue_delete : Addr → Kernel → Option Kernel
prio_ready_queue_delete tcb k = do
  k ← os_assert tcb k
  let k = record k { links = list_delete k.links tcb }
  head ← task_prio_queue (k.tcb tcb).prio
  some (
      if is_list_last k.links head
      then record k { map = bitmap_clear k.map (k.tcb tcb).prio }
      else k)

-- `port_schedule` of cpu/linux/port.c: the processor leaves the old task's context for the new one's.
unfoldable pub port_schedule : Kernel → Kernel
port_schedule k = record k { context = (k.tcb k.new_task).stack_ptr }

unfoldable pub schedule_lock : Kernel → Kernel
schedule_lock k = record k { schedule_is_lock = true }

unfoldable pub schedule_unlock : Kernel → Kernel
schedule_unlock k = record k { schedule_is_lock = false }

module _ (fuel : ℕ) where
  unfoldable pub prio_ready_queue_insert_tail : Addr → Kernel → Option Kernel
  prio_ready_queue_insert_tail tcb k = do
    k ← os_assert tcb k
    let k = record k { map = bitmap_set k.map (k.tcb tcb).prio }
    head ← task_prio_queue (k.tcb tcb).prio
    l ← list_insert_behind fuel k.links head tcb
    some (record k { links = l })

  -- `if (!is_list_last(&tmp->list)) { delete(tmp); insert_tail(tmp); }`
  unfoldable pub rotate : Addr → Kernel → Option Kernel
  rotate tmp k =
      if is_list_last k.links tmp
      then some k
      else (prio_ready_queue_delete tmp k >>= prio_ready_queue_insert_tail tmp)

  unfoldable pub prio_ready_queue_fetch : Kernel → Option (ℕ × Kernel)
  unfolding rotate bit_first_one_search
  prio_ready_queue_fetch k = do
    tmp ← bit_first_one_search k
    k ← os_assert tmp k
    k ← rotate tmp k
    some (
        if tmp == k.new_task
        then (no_sched, k)
        else (sched, record k { old_task = k.new_task; new_task = tmp }))

module _ (port : Port) (fuel : ℕ) where
  unfoldable pub schedule : Kernel → Option Kernel
  unfolding port_schedule
  schedule k = if k.schedule_is_lock then some k else do
    let (cpu_sr, k) = interrupt_disable port k
    (r, k) ← prio_ready_queue_fetch fuel k
    some (interrupt_enable port cpu_sr (if r == no_sched then k else port_schedule k))

  unfoldable pub find_high_ready_task : Kernel → Option Kernel
  find_high_ready_task k = do
    let (cpu_sr, k) = interrupt_disable port k
    (r, k) ← prio_ready_queue_fetch fuel k
    some (interrupt_enable port cpu_sr k)

-- `start_which_task`: the assertion makes its NULL branch unreachable. `start_schedule` of
-- cpu/linux/port.c sets the first context.
unfoldable pub start_which_task : Addr → Kernel → Option Kernel
start_which_task first_task k = do
  k ← os_assert first_task k
  let k = record k { new_task = first_task }
  some (record k { context = (k.tcb k.new_task).stack_ptr })
