-- ===== src/Cpu/Riscv/Frame.antt =====
-- The first frame of a task, `stack_init` of cpu/riscv/sifive_e/support.c.
use fos.Prelude.{
  ap, ◌∙◌, ℕ, zero, suc, ◌+◌, ◌-◌, ◌*◌, ◌%◌, ◌^◌, ◌<◌, ◌≤◌, ◌≡◌, ◌≢◌, ◌⊎◌, inl, inr, refl,
  Bool-cases, arith, ◌==◌, update,
}
use fos.Task.{Words}
use fos.Libc.{Memory, fos_memset}
use fos.Cpu.Riscv.{mark, fill_context, frame_base, stack_init, memset}

fill_context-outside :
    (n i stk : ℕ) (mem : Words) (a : ℕ)
    → (a < stk + 4 * i) ⊎ (stk + 4 * (i + n) ≤ a)
    → fill_context n i stk mem a ≡ mem a
unfolding fill_context
fill_context-outside zero i stk mem a out = refl
fill_context-outside (suc n) i stk mem a out =
    fill_context-outside n (i + 1) stk (update mem (stk + 4 * i) (mark i)) a (omega arith)
    ∙ ground arith

fill_context-marks :
    (n i stk : ℕ) (mem : Words) (j : ℕ)
    → i ≤ j
    → j < i + n
    → fill_context n i stk mem (stk + 4 * j) ≡ mark j
unfolding fill_context
fill_context-marks zero i stk mem j lo hi = absurd (omega arith)
fill_context-marks (suc n) i stk mem j lo hi = elim (Bool-cases (i == j)) [
  | inl e ↦
      let same : i ≡ j = ground (arith, e) in
      fill_context-outside n (i + 1) stk (update mem (stk + 4 * i) (mark i)) (stk + 4 * j)
        (omega arith)
      ∙ ground (arith, same, ap mark same)
  | inr ne ↦
      fill_context-marks n (i + 1) stk (update mem (stk + 4 * i) (mark i)) j (ground (arith, ne))
        (omega arith)
]

frame_base_lem :
    (stack_base stack_size : ℕ)
    → stack_base % 4 ≡ 0
    → 32 ≤ stack_size
    → stack_base + 4 * stack_size < 2 ^ 32
    → frame_base stack_base stack_size ≡ stack_base + 4 * stack_size - 128
unfolding frame_base
frame_base_lem stack_base stack_size aligned room fits = omega arith

-- `_memset` fills as `fos_memset` of the C library does, with the low byte.
memset-fos_memset :
    (dest c n : ℕ) (mem : Memory) → memset dest c n mem ≡ fos_memset dest (c % 256) n mem
unfolding memset fos_memset
memset-fos_memset dest c zero mem = refl
memset-fos_memset dest c (suc n) mem = memset-fos_memset (dest + 1) c n (update mem dest (c % 256))

-- What `restore_context` of cpu/riscv/sifive_e/port.s loads from a frame at `stk`.
pub record Frame (stk entry arg gp_now task_exit : ℕ) (mem : Words) : Type 0 where
  pub mepc : mem stk ≡ entry
  pub mstatus : mem (stk + 4) ≡ 0x1880
  pub ra : mem (stk + 8) ≡ task_exit
  pub gp : mem (stk + 12) ≡ gp_now
  pub a0 : mem (stk + 40) ≡ arg
  pub others : (i : ℕ) → 3 < i → i < 32 → i ≢ 10 → mem (stk + 4 * i) ≡ mark i

-- On an aligned stack of at least 32 words that ends inside the address space, `stack_init` returns
-- the place 32 words below the end, from which the switch to the task loads the entry, the machine
-- state, the return address, the global pointer, the argument and, elsewhere, the marks; words
-- outside this frame keep their values.
pub stack_init-Frame :
    (gp stack_base stack_size entry arg task_exit : ℕ) (mem : Words)
    → stack_base % 4 ≡ 0
    → 32 ≤ stack_size
    → stack_base + 4 * stack_size < 2 ^ 32
    → (stk : ℕ) × (mem' : Words) × (stack_init gp stack_base stack_size entry arg task_exit mem
        ≡ (stk, mem'))
      × (stk ≡ stack_base + 4 * stack_size - 128)
      × Frame stk entry arg gp task_exit mem'
      × ((a : ℕ) → (a < stk) ⊎ (stack_base + 4 * stack_size ≤ a) → mem' a ≡ mem a)
unfolding stack_init
stack_init-Frame gp stack_base stack_size entry arg task_exit mem aligned room fits =
    let base = frame_base_lem stack_base stack_size aligned room fits in
    let stk = frame_base stack_base stack_size in
    (
      stk,
      (stack_init gp stack_base stack_size entry arg task_exit mem).1,
      refl,
      base,
      record {
        mepc = ground arith;
        mstatus = ground arith;
        ra = ground arith;
        gp = ground arith;
        a0 = ground arith;
        others = λ i lo hi no.
            ground (arith, fill_context-marks 31 1 stk mem i (omega arith) (omega arith));
      },
      λ a out. ground (arith, base, fill_context-outside 31 1 stk mem a (ground (arith, base))),
    )
