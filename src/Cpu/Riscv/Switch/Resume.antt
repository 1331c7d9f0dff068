-- ===== src/Cpu/Riscv/Switch/Resume.antt =====
-- Two context switches by `port_schedule` of cpu/riscv/sifive_e/port.s: out of a task, and back to
-- it.
use Prim.Native.Nat.{bit_or}
use mathlib.Core.Path.{subst}
use fos.Prelude.{
  sym, ==_ne, ap, ◌∙◌, ℕ, ◌+◌, ◌-◌, ◌%◌, ◌^◌, ◌<◌, ◌≤◌, ◌≡◌, ◌≢◌, ◌⊎◌, inl, inr, refl, List, [],
  ◌∷◌, arith, ◌==◌, ==_iff, Bool-cases, update, ◌∈◌,
}
use fos.Task.{Words}
use fos.Cpu.Riscv.Switch.{
  Machine, mstatus_mpp, saved, reg_offset, save_all, load_all, restore_context, port_schedule,
}

-- A register that has a place of its own in a frame.
abbrev Placed : ℕ → Type 0
Placed i = (0 < i) × (i < 32) × (i ≢ 2)

abbrev AllPlaced : List ℕ → Type 0
AllPlaced [] = Unit
AllPlaced (i ∷ is) = Placed i × AllPlaced is

pub load_all-at :
    (is : List ℕ) (sp : ℕ) (mem : Words) (x : ℕ → ℕ) (i : ℕ)
    → (i ∈ is) ⊎ (x i ≡ mem (sp + reg_offset i))
    → load_all is sp mem x i ≡ mem (sp + reg_offset i)
unfolding load_all
load_all-at [] sp mem x i h = ground arith
load_all-at (r ∷ rs) sp mem x i h =
    load_all-at rs sp mem (update x r (mem (sp + reg_offset r))) i (elim (Bool-cases (i == r)) [
      | inl e ↦ inr (ground (arith, e, ap (λ j. mem (sp + reg_offset j)) ((==_iff i r).0 e)))
      | inr ne ↦ elim h [
        | inl j ↦ inl (ground (arith, j, ne))
        | inr old ↦ inr (ground (arith, old, ne))
      ]
    ])

-- A place that is none of the registers'.
save_all-outside :
    (is : List ℕ) (sp : ℕ) (x : ℕ → ℕ) (mem : Words) (a : ℕ)
    → AllPlaced is
    → (a < sp + 8) ⊎ (sp + 128 ≤ a)
    → save_all is sp x mem a ≡ mem a
unfolding save_all
save_all-outside [] sp x mem a p out = refl
save_all-outside (i ∷ is) sp x mem a (p, ps) out =
    save_all-outside is sp x (update mem (sp + reg_offset i) (x i)) a ps out ∙ ground arith

save_all-at :
    (is : List ℕ) (sp : ℕ) (x : ℕ → ℕ) (mem : Words) (i : ℕ)
    → AllPlaced is
    → Placed i
    → (i ∈ is) ⊎ (mem (sp + reg_offset i) ≡ x i)
    → save_all is sp x mem (sp + reg_offset i) ≡ x i
unfolding save_all
save_all-at [] sp x mem i p pi h = ground arith
save_all-at (r ∷ rs) sp x mem i (p, ps) pi h =
    save_all-at rs sp x (update mem (sp + reg_offset r) (x r)) i ps pi (elim (Bool-cases (i == r)) [
      | inl e ↦ inr (ground (arith, e, ap x ((==_iff i r).0 e)))
      | inr ne ↦ elim h [
        | inl j ↦ inl (ground (arith, j, ne))
        | inr old ↦ inr (ground (arith, old, ne, p, pi))
      ]
    ])

saved-AllPlaced : AllPlaced saved
saved-AllPlaced = omega arith

saved-Placed : (i : ℕ) → i ∈ saved → Placed i
saved-Placed i j = ground arith

-- What lies in memory for a task that is switched out: at `sp` its frame, from which it goes on at
-- `pc` with `mstatus` and the registers `x`.
pub record IsFrame (sp pc mstatus : ℕ) (x : ℕ → ℕ) (mem : Words) : Type 0 where
  pub at_pc : mem sp ≡ pc
  pub at_mstatus : mem (sp + 4) ≡ mstatus
  pub at_x : (i : ℕ) → i ∈ saved → mem (sp + reg_offset i) ≡ x i

-- The memory after the save.
saved_mem : Machine → ℕ → Words
saved_mem m sp =
    update (update (save_all saved sp m.x m.mem) sp (m.x 1)) (sp + 4) (bit_or m.mstatus mstatus_mpp)

saved_mem-IsFrame :
    (m : Machine) (sp : ℕ) → IsFrame sp (m.x 1) (bit_or m.mstatus mstatus_mpp) m.x (saved_mem m sp)
unfolding saved_mem
saved_mem-IsFrame m sp = record {
  at_pc = ground arith;
  at_mstatus = ground arith;
  at_x = λ i j.
      let p = saved-Placed i j in
      ground (arith, p, save_all-at saved sp m.x m.mem i saved-AllPlaced p (inl j));
}

saved_mem-outside :
    (m : Machine) (sp a : ℕ) → (a < sp) ⊎ (sp + 128 ≤ a) → saved_mem m sp a ≡ m.mem a
unfolding saved_mem
saved_mem-outside m sp a out =
    ground (arith, out, save_all-outside saved sp m.x m.mem a saved-AllPlaced (ground (arith, out)))

module _ (mret : ℕ → ℕ) where
  restore_lem :
      (m : Machine) {pc mstatus : ℕ} {x : ℕ → ℕ}
      → IsFrame m.sp pc mstatus x m.mem
      → ((restore_context mret m).pc ≡ pc)
        × ((restore_context mret m).mstatus ≡ mret mstatus)
        × ((i : ℕ) → i ∈ saved → (restore_context mret m).x i ≡ x i)
  unfolding restore_context
  restore_lem m f = (
    f.at_pc,
    ap mret f.at_mstatus,
    λ i j. load_all-at saved m.sp m.mem m.x i (inl j) ∙ f.at_x i j,
  )

  -- The frame of another task survives a save.
  kept-IsFrame :
      (m : Machine) (sp at : ℕ) {pc mstatus : ℕ} {x : ℕ → ℕ}
      → (at + 128 ≤ sp) ⊎ (sp + 128 ≤ at)
      → IsFrame at pc mstatus x m.mem
      → IsFrame at pc mstatus x (saved_mem m sp)
  kept-IsFrame m sp at apart f = record {
    at_pc = saved_mem-outside m sp at (ground (arith, apart)) ∙ f.at_pc;
    at_mstatus = saved_mem-outside m sp (at + 4) (ground (arith, apart)) ∙ f.at_mstatus;
    at_x = λ i j.
        saved_mem-outside m sp (at + reg_offset i) (ground (arith, apart, saved-Placed i j))
        ∙ f.at_x i j;
  }

  -- The machine with the running task's frame at `sp`, on the stack of the task that is to run.
  switched_out : Machine → ℕ → Machine
  switched_out m sp = record m {
    mem = saved_mem m sp;
    stack_ptr = update m.stack_ptr m.old_task sp;
    old_task = m.new_task;
    sp = update m.stack_ptr m.old_task sp m.new_task;
  }

  port_schedule_lem :
      (m : Machine)
      → port_schedule mret m
        ≡ restore_context mret (switched_out m ((m.sp + 2 ^ 32 - 128) % 2 ^ 32))
  unfolding port_schedule switched_out saved_mem
  port_schedule_lem m = refl

  port_schedule-eq :
      (m : Machine)
      → 128 ≤ m.sp
      → m.sp < 2 ^ 32
      → port_schedule mret m ≡ restore_context mret (switched_out m (m.sp - 128))
  port_schedule-eq m room fits =
      let e : (m.sp + 2 ^ 32 - 128) % 2 ^ 32 ≡ m.sp - 128 = omega arith in
      port_schedule_lem m ∙ ap (λ (s : ℕ). restore_context mret (switched_out m s)) e

  -- What a task that is switched out leaves behind.
  leaves :
      (m : Machine)
      → 128 ≤ m.sp
      → m.sp < 2 ^ 32
      → ((port_schedule mret m).stack_ptr m.old_task ≡ m.sp - 128)
        × ((a : ℕ) → (port_schedule mret m).mem a ≡ saved_mem m (m.sp - 128) a)
  unfolding restore_context switched_out
  leaves m room fits =
      let e = port_schedule-eq m room fits in
      (
        ap (λ (n : Machine). n.stack_ptr m.old_task) e ∙ ground arith,
        λ a. ap (λ (n : Machine). n.mem a) e,
      )

  -- The running task's frame in a memory that has kept it.
  IsFrame-stays :
      (m : Machine) (mem : Words)
      → 128 ≤ m.sp
      → ((a : ℕ) → m.sp ≤ a + 128 → a < m.sp → mem a ≡ saved_mem m (m.sp - 128) a)
      → IsFrame (m.sp - 128) (m.x 1) (bit_or m.mstatus mstatus_mpp) m.x mem
  IsFrame-stays m mem room same =
      let f = saved_mem-IsFrame m (m.sp - 128) in
      record {
        at_pc = same (m.sp - 128) (omega arith) (omega arith) ∙ f.at_pc;
        at_mstatus = same (m.sp - 128 + 4) (omega arith) (omega arith) ∙ f.at_mstatus;
        at_x = λ i j.
            let p = saved-Placed i j in
            same (m.sp - 128 + reg_offset i) (ground (arith, p)) (ground (arith, p)) ∙ f.at_x i j;
      }

  -- A task that calls `port_schedule` on a stack with room leaves a frame 128 bytes further down, and
  -- its stack pointer in its TCB. If both are still there, and the running task has room on a stack
  -- of its own, when that task in turn switches back to it, it goes on behind its call with its stack
  -- pointer and every saved register as they were.
  pub port_schedule-resumes :
      (m m' : Machine)
      → 128 ≤ m.sp
      → m.sp < 2 ^ 32
      → 128 ≤ m'.sp
      → m'.sp < 2 ^ 32
      → m'.new_task ≡ m.old_task
      → m'.old_task ≢ m.old_task
      → m'.stack_ptr m.old_task ≡ (port_schedule mret m).stack_ptr m.old_task
      → ((a : ℕ) → m.sp ≤ a + 128 → a < m.sp → m'.mem a ≡ (port_schedule mret m).mem a)
      → (m'.sp + 128 ≤ m.sp) ⊎ (m.sp + 128 ≤ m'.sp)
      → ((port_schedule mret m').sp ≡ m.sp)
        × ((port_schedule mret m').pc ≡ m.x 1)
        × ((port_schedule mret m').mstatus ≡ mret (bit_or m.mstatus mstatus_mpp))
        × ((i : ℕ) → i ∈ saved → (port_schedule mret m').x i ≡ m.x i)
  unfolding switched_out restore_context
  port_schedule-resumes m m' room fits room' fits' to from ptr same apart =
      let (at_ptr, at_mem) = leaves m room fits in
      let f = IsFrame-stays m m'.mem room (λ a lo hi. same a lo hi ∙ at_mem a) in
      let s' : Machine = switched_out m' (m'.sp - 128) in
      let back : s'.sp ≡ m.sp - 128 = ground (
        arith,
        to,
        from,
        ptr,
        at_ptr,
        ap m'.stack_ptr to,
        ==_ne m'.new_task m'.old_task (λ z. from (ground (arith, z, to))),
      ) in
      let f' = kept-IsFrame m' (m'.sp - 128) (m.sp - 128) (ground (arith, apart)) f in
      let (e1, e2, e3) = restore_lem s' (
        subst
          (λ (a : ℕ).
            IsFrame a (m.x 1) (bit_or m.mstatus mstatus_mpp) m.x (saved_mem m' (m'.sp - 128)))
          (sym back) f') in
      let e = port_schedule-eq m' room' fits' in
      let end : (s'.sp + 128) % 2 ^ 32 ≡ m.sp = omega (arith, back) in
      (
        ap (λ (n : Machine). n.sp) e ∙ end,
        ap (λ (n : Machine). n.pc) e ∙ e1,
        ap (λ (n : Machine). n.mstatus) e ∙ e2,
        λ i j. ap (λ (n : Machine). n.x i) e ∙ e3 i j,
      )
