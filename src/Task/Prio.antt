-- ===== src/Task/Prio.antt =====
-- `task_prio_change` of kernel/task.c.
use fos.Prelude.{ℕ, ◌+◌, ◌<◌, ◌%◌, ◌≡◌, ◌≢◌, ◌⊎◌, Bool, none, some, arith, ◌∈◌, has, ap}
use fos.LinkedList.{Addr, Links, null}
use fos.LinkedList.Shape.{Lists}
use fos.PrioMap.{PrioMap}
use fos.Kernel.{Kernel, true_code, no_tcb, set_prio, system_word}
use fos.Sched.{prio_ready_queue_insert_head}
use fos.Sched.Models.{ready, Models}
use fos.Sched.Models.Queues.{delete-at}
use fos.Mutex.{move_to_prio}
use fos.Mutex.Ceiling.{moved, move_to_prio-Leaves}
use fos.Task.{task_prio_change}

-- A priority that the guard refuses changes nothing.
pub task_prio_change-refused :
    (t prio : ℕ) (k : Kernel)
    → (prio ≡ 0) ⊎ (32 < prio)
    → task_prio_change t prio k ≡ some (no_tcb, k)
unfolding task_prio_change
task_prio_change-refused t prio k h = ground arith

module _ {head : Addr → Bool} {k : Kernel} {lists : Lists} (v : Models head k lists) where
  present : (t : Addr) (p : ℕ) → p < 32 → t ∈ ready lists p → t ≢ null
  present t p lt i z =
      ground (arith, v.no_null (p + 1) (v.statics p lt), ap (λ a. has a (ready lists p)) z)

  -- The running task moves to the front of the queue of a priority from 1 to 31.
  pub task_prio_change-moves :
      (p prio : ℕ)
      → p < 32
      → 0 < prio
      → prio < 32
      → k.new_task ∈ ready lists p
      → (l : Links) × (m : PrioMap) × (task_prio_change k.new_task prio k
          ≡ some (true_code, record (set_prio k k.new_task prio) { links = l; map = m }))
        × Models head
            (record (set_prio k k.new_task prio) { links = l; map = m })
            (moved lists p prio k.new_task)
  unfolding task_prio_change move_to_prio
  task_prio_change-moves p prio lt pos lt' i =
      let (l, m, e, v1) = move_to_prio-Leaves v k.new_task p prio lt lt' i in
      let same : prio % 256 ≡ prio = omega arith in
      (l, m, ground (arith, e, same, present k.new_task p lt i), v1)

  -- The priority 32 passes the guard, but is no index of `task_prio_queue`: the call writes outside
  -- the array.
  pub task_prio_change-outside :
      (p : ℕ)
      → p < 32
      → k.new_task ∈ ready lists p
      → task_prio_change k.new_task system_word k ≡ none
  unfolding task_prio_change prio_ready_queue_insert_head
  task_prio_change-outside p lt i =
      let (l, m, e, v1) = delete-at v k.new_task p (v.queued p k.new_task lt i) i in
      ground (arith, e, present k.new_task p lt i)
