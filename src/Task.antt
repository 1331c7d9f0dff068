-- ===== src/Task.antt =====
-- kernel/task.c. `memset` of the host's C library and `stack_init` of the processor port are
-- parameters; `stack` memory is a function of words. `task_exit` only sleeps for ever.
pub mod Create
pub mod Prio
pub mod Stack
use fos.Prelude.{
  ℕ, zero, suc, ◌+◌, ◌-◌, ◌%◌, Bool, Option, none, some, ◌==◌, ◌||◌, if◌then◌else◌, ltb, update,
}
use fos.LinkedList.{Addr, null}
use fos.Kernel.{Kernel, ◌>>=◌, Tcb, true_code, no_tcb, set_prio, system_word}
use fos.Sched.{prio_ready_queue_delete, prio_ready_queue_insert_head, prio_ready_queue_insert_tail}

abbrev pub Words : Type 0
Words = ℕ → ℕ

abbrev pub set_tcb : Kernel → Addr → Tcb → Kernel
set_tcb k t x = record k { tcb = update k.tcb t x }

module _ (memset : ℕ → ℕ → ℕ → Words → Words) (stack_init : ℕ → ℕ → ℕ → ℕ → ℕ) (fuel : ℕ) where
  unfoldable pub task_create :
      (tcb name fun arg stack stack_size prio state : ℕ)
      → Kernel
      → Words
      → Option (ℕ × Kernel × Words)
  task_create tcb name fun arg stack stack_size prio state k mem =
      if tcb == null || (fun == null || stack == null) then some (no_tcb, k, mem) else do
        let mem = memset stack 0 stack_size mem
        let k = set_tcb k tcb (record {
          stack_ptr = stack_init stack stack_size fun arg;
          name = name;
          prio = prio;
          state = state;
        })
        k ← prio_ready_queue_insert_tail fuel tcb k
        some (true_code, k, mem)

-- `OS_ASSERT(new_task == tcb)` stops the kernel.
unfoldable pub task_prio_change : Addr → ℕ → Kernel → Option (ℕ × Kernel)
task_prio_change tcb prio k =
    if tcb == null || (ltb prio 1 || ltb system_word prio)
    then some (no_tcb, k)
    else (if k.new_task == tcb
        then (do
          k ← prio_ready_queue_delete tcb k
          k ← prio_ready_queue_insert_head tcb (set_prio k tcb (prio % 256))
          some (true_code, k))
        else none)

-- `while ((*task_stack-- == 0u) & (free_stk < stack_size)) free_stk++;`, over the words left.
unfoldable pub check_loop : ℕ → ℕ → ℕ → Words → ℕ
check_loop zero free_stk task_stack mem = free_stk
check_loop (suc left) free_stk task_stack mem =
    let rest = check_loop left (free_stk + 1) (task_stack - 1) mem in
    if mem task_stack == 0 then rest else free_stk

unfoldable pub task_check_stack : Addr → ℕ → Kernel → Words → ℕ
unfolding check_loop
task_check_stack tcb stack_size k mem =
    check_loop stack_size 0 ((k.tcb tcb).stack_ptr + stack_size) mem
