-- ===== src/Task/Stack.antt =====
-- `task_check_stack` of kernel/task.c.
use fos.Prelude.{
  ap, ◌∙◌, ℕ, zero, suc, ◌+◌, ◌-◌, ◌<◌, ◌≤◌, ◌≡◌, ◌≢◌, arith, ◌==◌, Bool-cases, inl, inr, true,
}
use fos.LinkedList.{Addr}
use fos.Kernel.{Kernel}
use fos.Task.{Words, check_loop, task_check_stack}

-- The scan of `left` words from `p` downwards has found `r` words that are zero.
pub record Scanned (left p : ℕ) (mem : Words) (r : ℕ) : Type 0 where
  pub bound : r ≤ left
  pub zeros : (i : ℕ) → i < r → mem (p - i) ≡ 0
  pub stop : r < left → mem (p - r) ≢ 0

more_zeros :
    (p r : ℕ) (mem : Words)
    → (mem p == 0) ≡ true
    → ((i : ℕ) → i < r → mem (p - 1 - i) ≡ 0)
    → (i : ℕ) → i < r + 1
    → mem (p - i) ≡ 0
more_zeros p r mem free rest zero h =
    let same : p - 0 ≡ p = omega arith in ground (arith, free, ap mem same)
more_zeros p r mem free rest (suc i) h =
    let same : p - suc i ≡ p - 1 - i = omega arith in ap mem same ∙ rest i (omega arith)

check_loop-Scanned :
    (left free_stk p : ℕ) (mem : Words)
    → (r : ℕ) × (check_loop left free_stk p mem ≡ free_stk + r) × Scanned left p mem r
unfolding check_loop
check_loop-Scanned zero free_stk p mem = (
  0,
  omega arith,
  record {
    bound = omega arith;
    zeros = λ i h. absurd (omega arith);
    stop = λ h. absurd (omega arith);
  },
)
check_loop-Scanned (suc left) free_stk p mem = elim (Bool-cases (mem p == 0)) [
  | inr used ↦ (
    0,
    ground (arith, used),
    record {
      bound = omega arith;
      zeros = λ i h. absurd (omega arith);
      stop = λ h z. let same : p - 0 ≡ p = omega arith in ground (arith, used, ap mem same);
    },
  )
  | inl free ↦
      let (r, e, s) = check_loop-Scanned left (free_stk + 1) (p - 1) mem in
      (
        r + 1,
        ground (arith, free, e),
        record {
          bound = omega (arith, s.bound);
          zeros = more_zeros p r mem free s.zeros;
          stop = λ h z.
              let same : p - 1 - r ≡ p - (r + 1) = omega arith in
              s.stop (omega arith) (ap mem same ∙ z);
        },
      )
]

-- The check scans from the word `stack_size` words above `stack_ptr` downwards, which is behind the
-- stack even where `stack_ptr` is its base. It counts the zero words up to the first word in use or
-- to `stack_size` of them: what it returns is their number.
pub task_check_stack-Scanned :
    (tcb : Addr) (stack_size : ℕ) (k : Kernel) (mem : Words)
    → Scanned stack_size
        ((k.tcb tcb).stack_ptr + stack_size)
        mem
        (task_check_stack tcb stack_size k mem)
unfolding task_check_stack
task_check_stack-Scanned tcb stack_size k mem =
    let (r, e, s) = check_loop-Scanned stack_size 0 ((k.tcb tcb).stack_ptr + stack_size) mem in
    let e' : check_loop stack_size 0 ((k.tcb tcb).stack_ptr + stack_size) mem ≡ r =
      omega (arith, e) in
    rw e' s
