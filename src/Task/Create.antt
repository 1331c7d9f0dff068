-- ===== src/Task/Create.antt =====
-- `task_create` of kernel/task.c.
use fos.Prelude.{ℕ, ◌+◌, ◌<◌, ◌≡◌, ◌≢◌, Bool, some, ◌∷◌, [], ◌++◌, arith, update, ==_ne, length}
use fos.LinkedList.{Addr, Links, null}
use fos.LinkedList.Shape.{Lists, Loose}
use fos.PrioMap.{PrioMap}
use fos.Kernel.{Kernel, Tcb, true_code}
use fos.Sched.Models.{ready, Models}
use fos.Sched.Models.Queues.{insert_tail-at}
use fos.Task.{Words, set_tcb, task_create}

-- A structure in no list may be filled in, with a priority below 32.
set_tcb-Models :
    {head : Addr → Bool} {k : Kernel} {lists : Lists}
    → Models head k lists
    → (t : Addr) (x : Tcb) → x.prio < 32
    → Loose head lists t
    → Models head (set_tcb k t x) lists
set_tcb-Models v t x lt o = record {
  shape = v.shape;
  map = v.map;
  queued = λ p u hp i. ground (arith, v.queued p u hp i, o.free (p + 1) (v.statics p hp));
  prios = λ u. ground (arith, v.prios u);
  statics = v.statics;
  no_null = v.no_null;
}

-- A new task of a priority below 32 is filled in, with its stack cleared and prepared by the port,
-- and goes to the end of the queue of its priority.
pub task_create-queues :
    (memset : ℕ → ℕ → ℕ → Words → Words) (stack_init : ℕ → ℕ → ℕ → ℕ → ℕ) (fuel : ℕ)
    {head : Addr → Bool} {k : Kernel} {lists : Lists}
    → Models head k lists
    → (tcb name fun arg stack stack_size prio state : ℕ) (mem : Words) → tcb ≢ null
    → fun ≢ null
    → stack ≢ null
    → prio < 32
    → Loose head lists tcb
    → length (ready lists prio) < fuel
    → (let x : Tcb = record {
      stack_ptr = stack_init stack stack_size fun arg;
      name = name;
      prio = prio;
      state = state;
    } in
        (l : Links) × (m : PrioMap) × (task_create memset stack_init fuel tcb name fun arg stack
            stack_size prio state k mem
          ≡ some (
            true_code,
            record (set_tcb k tcb x) { links = l; map = m },
            memset stack 0 stack_size mem,
          ))
        × Models head
            (record (set_tcb k tcb x) { links = l; map = m })
            (update lists (prio + 1) (ready lists prio ++ tcb ∷ [])))
unfolding task_create
task_create-queues memset stack_init fuel {k} v tcb name fun arg stack stack_size prio state mem nt
      nf ns lt o room =
    let x : Tcb = record {
      stack_ptr = stack_init stack stack_size fun arg;
      name = name;
      prio = prio;
      state = state;
    } in
    let (l, m, e, v1) =
      insert_tail-at (set_tcb-Models v tcb x lt o) fuel tcb prio (ground arith) o nt room in
    (l, m, ground (arith, e, ==_ne tcb null nt, ==_ne fun null nf, ==_ne stack null ns), v1)
