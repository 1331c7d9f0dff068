-- ===== src/Cpu/Riscv/Switch.antt =====
-- The context switch, cpu/riscv/sifive_e/port.s. A machine has the registers, the stack pointer x2
-- apart, memory, where the kernel's `new_task` and `old_task` point, and the first word of each TCB,
-- which is its stack pointer. What `mret` does to `mstatus` is the processor's.
pub mod Resume
pub mod Enter
use Prim.Native.Nat.{bit_or}
use fos.Prelude.{ℕ, ◌+◌, ◌-◌, ◌*◌, ◌%◌, ◌^◌, List, [], ◌∷◌, ◌==◌, if◌then◌else◌, update}
use fos.LinkedList.{Addr}
use fos.Task.{Words}

pub record Machine : Type 0 where
  pub x : ℕ → ℕ
  pub sp : ℕ
  pub pc : ℕ
  pub mstatus : ℕ
  pub mem : Words
  pub stack_ptr : Addr → ℕ
  pub old_task : Addr
  pub new_task : Addr

abbrev pub mstatus_mpp : ℕ
mstatus_mpp = 0x00001800

-- The registers that are saved and restored, in this order.
abbrev pub saved : List ℕ
saved =
    1 ∷ 3 ∷ 4 ∷ 5 ∷ 6 ∷ 7 ∷ 8 ∷ 9 ∷ 10 ∷ 11 ∷ 12 ∷ 13 ∷ 14 ∷ 15 ∷ 16 ∷ 17 ∷ 18 ∷ 19 ∷ 20 ∷ 21 ∷ 22
    ∷ 23 ∷ 24 ∷ 25 ∷ 26 ∷ 27 ∷ 28 ∷ 29 ∷ 30 ∷ 31 ∷ []

-- __reg_x1_OFFSET, and __reg_x3_OFFSET to __reg_x31_OFFSET.
abbrev pub reg_offset : ℕ → ℕ
reg_offset i = if i == 1 then 8 else 4 * i

unfoldable pub save_all : List ℕ → (sp : ℕ) → (ℕ → ℕ) → Words → Words
save_all [] sp x mem = mem
save_all (i ∷ is) sp x mem = save_all is sp x (update mem (sp + reg_offset i) (x i))

unfoldable pub load_all : List ℕ → (sp : ℕ) → Words → (ℕ → ℕ) → ℕ → ℕ
load_all [] sp mem x = x
load_all (i ∷ is) sp mem x = load_all is sp mem (update x i (mem (sp + reg_offset i)))

module _ (mret : ℕ → ℕ) where
  unfoldable pub restore_context : Machine → Machine
  restore_context m = record m {
    pc = m.mem m.sp;
    mstatus = mret (m.mem (m.sp + 4));
    x = load_all saved m.sp m.mem m.x;
    sp = (m.sp + 128) % 2 ^ 32;
  }

  unfoldable pub start_schedule : Machine → Machine
  start_schedule m = restore_context (record m { sp = m.stack_ptr m.new_task })

  unfoldable pub port_schedule : Machine → Machine
  port_schedule m =
      let sp = (m.sp + 2 ^ 32 - 128) % 2 ^ 32 in
      let mem = save_all saved sp m.x m.mem in
      let mem = update mem sp (m.x 1) in
      let mem = update mem (sp + 4) (bit_or m.mstatus mstatus_mpp) in
      let stack_ptr = update m.stack_ptr m.old_task sp in
      restore_context (record m {
        mem = mem;
        stack_ptr = stack_ptr;
        old_task = m.new_task;
        sp = stack_ptr m.new_task;
      })
