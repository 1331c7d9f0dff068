-- ===== src/Mutex.antt =====
-- kernel/mutex.c: the mutex with a priority ceiling. As in Semaphore, what follows a call of
-- `schedule` only gives back the interrupt word.
pub mod Ceiling
pub mod Waiters
use fos.Prelude.{ℕ, Option, some, ◌==◌, if◌then◌else◌, update}
use fos.LinkedList.{Addr, null, list_init, list_delete, list_insert_behind, is_list_last}
use fos.Kernel.{
  Kernel, Port, Mutex, ◌>>=◌, true_code, no_mutex, interrupt_disable, interrupt_enable, set_prio,
}
use fos.Sched.{prio_ready_queue_delete, prio_ready_queue_insert_head, schedule}

abbrev pub prio_mutex : ℕ
prio_mutex = 1

abbrev pub set_mutex : Kernel → Addr → Mutex → Kernel
set_mutex k m x = record k { mutex = update k.mutex m x }

unfoldable pub mutex_block_queue_init : Addr → Kernel → Kernel
mutex_block_queue_init m k = record k { links = list_init k.links m }

unfoldable pub mutex_block_queue_insert : ℕ → Addr → Kernel → Option Kernel
mutex_block_queue_insert fuel m k = do
  l ← list_insert_behind fuel k.links m (k.mutex m).tcb
  some (record k { links = l })

unfoldable pub mutex_block_queue_delete : Addr → Kernel → Kernel
mutex_block_queue_delete tcb k = record k { links = list_delete k.links tcb }

unfoldable pub mutex_init : Addr → ℕ → Kernel → ℕ × Kernel
unfolding mutex_block_queue_init
mutex_init m name k =
    if m == null
    then (no_mutex, k)
    else let k = mutex_block_queue_init m k in
      (true_code, set_mutex k m (record (k.mutex m) { name = name; enable = 1 }))

-- `prio_ready_queue_delete(new_task); new_task->prio = prio; prio_ready_queue_insert_head(new_task);`
unfoldable pub move_to_prio : Addr → ℕ → Kernel → Option Kernel
move_to_prio t prio k = do
  k ← prio_ready_queue_delete t k
  prio_ready_queue_insert_head t (set_prio k t prio)

-- The branch of `mutex_get` that takes the mutex.
unfoldable pub mutex_take : Addr → Kernel → Option Kernel
unfolding move_to_prio
mutex_take m k = do
  let k = set_mutex k m (record (k.mutex m) { copy_prio = (k.tcb k.new_task).prio })
  k ← move_to_prio k.new_task prio_mutex k
  some (set_mutex k m (record (k.mutex m) { enable = 0 }))

-- The part of `mutex_put` that wakes the first blocked task.
unfoldable pub mutex_wake : Addr → Kernel → Option Kernel
unfolding mutex_block_queue_delete
mutex_wake m k =
    if is_list_last k.links m
    then some k
    else let tcb_tmp = k.links.next m in
      prio_ready_queue_insert_head tcb_tmp (mutex_block_queue_delete tcb_tmp k)

module _ (port : Port) (fuel : ℕ) where
  -- The branch of `mutex_get` that blocks the running task.
  unfoldable pub mutex_block : Addr → Kernel → Option Kernel
  unfolding mutex_block_queue_insert
  mutex_block m k = do
    let k = set_mutex k m (record (k.mutex m) { tcb = k.new_task })
    k ← prio_ready_queue_delete k.new_task k
    k ← mutex_block_queue_insert fuel m k
    schedule port fuel k

  unfoldable pub mutex_get : Addr → Kernel → Option (ℕ × Kernel)
  unfolding mutex_block mutex_take
  mutex_get m k = if m == null then some (no_mutex, k) else do
    let (cpu_sr, k) = interrupt_disable port k
    k ← (if (k.mutex m).enable == 0 then mutex_block m k else mutex_take m k)
    some (true_code, interrupt_enable port cpu_sr k)

  unfoldable pub mutex_put : Addr → Kernel → Option (ℕ × Kernel)
  unfolding move_to_prio mutex_wake
  mutex_put m k = if m == null then some (no_mutex, k) else do
    let (cpu_sr, k) = interrupt_disable port k
    k ← move_to_prio k.new_task (k.mutex m).copy_prio k
    let k = set_mutex k m (record (k.mutex m) { enable = 1 })
    k ← mutex_wake m k
    k ← schedule port fuel (interrupt_enable port cpu_sr k)
    some (true_code, k)

-- `mutex_delete` does nothing yet.
unfoldable pub mutex_delete : Addr → Kernel → ℕ × Kernel
mutex_delete m k = (true_code, k)
