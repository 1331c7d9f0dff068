-- ===== src/Semaphore.antt =====
-- kernel/semaphore.c. What a function does after its call of `schedule` runs when its task is
-- switched back; here that is only giving back the interrupt word, which is done at once.
pub mod Blocking
use fos.Prelude.{ℕ, ◌+◌, ◌-◌, Option, some, ◌==◌, if◌then◌else◌, update}
use fos.LinkedList.{Addr, null, list_init, list_delete, list_insert_behind, is_list_last}
use fos.Kernel.{
  Kernel, Port, Sem, ◌>>=◌, true_code, no_semaphore, interrupt_disable, interrupt_enable,
}
use fos.Sched.{os_assert, prio_ready_queue_delete, prio_ready_queue_insert_head, schedule}

abbrev pub set_sem : Kernel → Addr → Sem → Kernel
set_sem k s x = record k { sem = update k.sem s x }

unfoldable pub sem_block_queue_init : Addr → Kernel → Option Kernel
sem_block_queue_init s k = do k ← os_assert s k; some (record k { links = list_init k.links s })

unfoldable pub sem_block_queue_insert : ℕ → Addr → Kernel → Option Kernel
sem_block_queue_insert fuel s k = do
  k ← os_assert s k
  l ← list_insert_behind fuel k.links s (k.sem s).tcb
  some (record k { links = l })

unfoldable pub sem_block_queue_delete : Addr → Kernel → Option Kernel
sem_block_queue_delete tcb k = do
  k ← os_assert tcb k
  some (record k { links = list_delete k.links tcb })

unfoldable pub sem_init : Addr → ℕ → ℕ → Kernel → Option (ℕ × Kernel)
unfolding sem_block_queue_init
sem_init s name num k = if s == null then some (no_semaphore, k) else do
  let k = set_sem k s (record (k.sem s) { count = num; name = name })
  k ← sem_block_queue_init s k
  some (true_code, k)

module _ (port : Port) (fuel : ℕ) where
  -- The branch of `sem_get` that blocks the running task.
  unfoldable pub sem_block : Addr → Kernel → Option Kernel
  unfolding sem_block_queue_insert
  sem_block s k = do
    let k = set_sem k s (record (k.sem s) { tcb = k.new_task })
    k ← prio_ready_queue_delete (k.sem s).tcb k
    k ← sem_block_queue_insert fuel s k
    schedule port fuel k

  unfoldable pub sem_get : Addr → Kernel → Option (ℕ × Kernel)
  unfolding sem_block
  sem_get s k = if s == null then some (no_semaphore, k) else do
    let (cpu_sr, k) = interrupt_disable port k
    k ←
        (if (k.sem s).count == 0
          then sem_block s k
          else some (set_sem k s (record (k.sem s) { count = (k.sem s).count - 1 })))
    some (true_code, interrupt_enable port cpu_sr k)

  -- The branch of `sem_put` that wakes the first blocked task.
  unfoldable pub sem_wake : Addr → Kernel → Option Kernel
  unfolding sem_block_queue_delete
  sem_wake s k = do
    let tcb_tmp = k.links.next s
    k ← sem_block_queue_delete tcb_tmp k
    prio_ready_queue_insert_head tcb_tmp k

  unfoldable pub sem_put : Addr → Kernel → Option (ℕ × Kernel)
  unfolding sem_wake
  sem_put s k = if s == null then some (no_semaphore, k) else do
    let (cpu_sr, k) = interrupt_disable port k
    k ←
        (if is_list_last k.links s
          then some (
              if (k.sem s).count == 0xffffffff
              then k
              else set_sem k s (record (k.sem s) { count = (k.sem s).count + 1 }))
          else sem_wake s k)
    k ← schedule port fuel (interrupt_enable port cpu_sr k)
    some (true_code, k)
