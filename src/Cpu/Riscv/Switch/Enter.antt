-- ===== src/Cpu/Riscv/Switch/Enter.antt =====
-- The first task that runs, from `stack_init` of cpu/riscv/sifive_e/support.c to `start_schedule` of
-- port.s.
use fos.Prelude.{ap, ◌∙◌, ℕ, ◌+◌, ◌*◌, ◌%◌, ◌^◌, ◌<◌, ◌≤◌, ◌≡◌, refl, arith, inl, ◌∈◌}
use fos.Task.{Words}
use fos.Cpu.Riscv.{stack_init}
use fos.Cpu.Riscv.Frame.{stack_init-Frame}
use fos.Cpu.Riscv.Switch.{Machine, saved, reg_offset, load_all, restore_context, start_schedule}
use fos.Cpu.Riscv.Switch.Resume.{load_all-at}

-- On an aligned stack of at least 32 words that ends inside the address space, with what `stack_init`
-- wrote there and returned still in place, `start_schedule` enters the task at its function, with its
-- argument, the return address, the global pointer and an empty stack.
pub start_schedule-enters :
    (mret : ℕ → ℕ) (gp stack_base stack_size entry arg task_exit : ℕ) (mem : Words) (m : Machine)
    → stack_base % 4 ≡ 0
    → 32 ≤ stack_size
    → stack_base + 4 * stack_size < 2 ^ 32
    → m.stack_ptr m.new_task ≡ (stack_init gp stack_base stack_size entry arg task_exit mem).0
    → m.mem ≡ (stack_init gp stack_base stack_size entry arg task_exit mem).1
    → ((start_schedule mret m).pc ≡ entry)
      × ((start_schedule mret m).sp ≡ stack_base + 4 * stack_size)
      × ((start_schedule mret m).mstatus ≡ mret 0x1880)
      × ((start_schedule mret m).x 10 ≡ arg)
      × ((start_schedule mret m).x 1 ≡ task_exit)
      × ((start_schedule mret m).x 3 ≡ gp)
unfolding start_schedule restore_context
start_schedule-enters mret gp stack_base stack_size entry arg task_exit mem m aligned room fits ptr
      same =
    let (stk, mem', e, at, f, outside) =
      stack_init-Frame gp stack_base stack_size entry arg task_exit mem aligned room fits in
    let stk_at : m.stack_ptr m.new_task ≡ stk = ptr ∙ ap (λ (r : ℕ × Words). r.0) e in
    let mem_at : m.mem ≡ mem' = same ∙ ap (λ (r : ℕ × Words). r.1) e in
    let read : (a : ℕ) → m.mem (m.stack_ptr m.new_task + a) ≡ mem' (stk + a) = λ a.
      ap (λ (g : Words). g (m.stack_ptr m.new_task + a)) mem_at ∙ ap (λ s. mem' (s + a)) stk_at in
    let reg : (i : ℕ)
        → i ∈ saved
        → load_all saved (m.stack_ptr m.new_task) m.mem m.x i
          ≡ m.mem (m.stack_ptr m.new_task + reg_offset i) =
      λ i j. load_all-at saved (m.stack_ptr m.new_task) m.mem m.x i (inl j) in
    (
      ap (λ (g : Words). g (m.stack_ptr m.new_task)) mem_at ∙ ap mem' stk_at ∙ f.mepc,
      omega (arith, stk_at, at),
      ap mret (read 4 ∙ f.mstatus),
      reg 10 refl ∙ read 40 ∙ f.a0,
      reg 1 refl ∙ read 8 ∙ f.ra,
      reg 3 refl ∙ read 12 ∙ f.gp,
    )
