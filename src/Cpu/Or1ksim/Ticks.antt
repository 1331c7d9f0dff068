-- ===== src/Cpu/Or1ksim/Ticks.antt =====
-- cpu/or1ksim/hw_timer.c and stack_ready.c: the tick timer's mode register and the first stack frame
-- of a task. Registers are 32-bit words; memory is a function of words, so that the stack pointer
-- counts words.
use Prim.Native.Nat.{bit_and, bit_or}
use fos.Prelude.{ℕ, ◌+◌, ◌-◌, ◌^◌, ◌/◌, List, [], ◌∷◌, update}
use fos.Task.{Words}
use fos.Cpu.Or1ksim.{spr_sr_tee, spr_sr_iee}

-- SPR_TTMR and SPR_SR.
pub record Timer : Type 0 where
  pub sr : ℕ
  pub ttmr : ℕ

abbrev pub spr_ttmr_ip : ℕ
spr_ttmr_ip = 0x10000000

abbrev pub spr_ttmr_ie : ℕ
spr_ttmr_ie = 0x20000000

abbrev pub spr_ttmr_rt : ℕ
spr_ttmr_rt = 0x40000000

abbrev pub spr_ttmr_tp : ℕ
spr_ttmr_tp = 0x0fffffff

abbrev pub ticks_per_second : ℕ
ticks_per_second = 100

abbrev pub spr_sr_sm : ℕ
spr_sr_sm = 1

abbrev pub sys_clk : ℕ
sys_clk = 40000000

-- `x & ~y`
abbrev pub but : ℕ → ℕ → ℕ
but x y = bit_and x (2 ^ 32 - 1 - y)

unfoldable pub hw_timer_init : Timer → Timer
hw_timer_init t =
    let t = record t { ttmr = but t.ttmr spr_ttmr_ip } in
    let t = record t { sr = bit_or t.sr spr_sr_tee } in
    record t {
      ttmr =
          bit_or (bit_or spr_ttmr_ie spr_ttmr_rt)
            (bit_and (sys_clk / ticks_per_second) spr_ttmr_tp);
    }

unfoldable pub hw_timer_disable : Timer → Timer
hw_timer_disable t = let t = record t { sr = but t.sr spr_sr_tee } in record t { ttmr = 0 }

unfoldable pub hw_timer_disable_interrupt : Timer → Timer
hw_timer_disable_interrupt t = record t { ttmr = but t.ttmr spr_ttmr_ie }

unfoldable pub hw_timer_clear_interrupt : Timer → Timer
hw_timer_clear_interrupt t = record t { ttmr = but t.ttmr spr_ttmr_ip }

-- `*stk-- = x` for each word of a list.
unfoldable pub store_down : List ℕ → ℕ → Words → Words
store_down [] stk mem = mem
store_down (x ∷ xs) stk mem = store_down xs (stk - 1) (update mem stk x)

-- The words of the first frame, from the highest address down: the registers r31 to r2, the status
-- word and the program counter.
abbrev pub first_frame : (p_task arg task_exit : ℕ) → List ℕ
first_frame p_task arg task_exit =
    31
    ∷ 30
    ∷ 29
    ∷ 28
    ∷ 27
    ∷ 26
    ∷ 25
    ∷ 24
    ∷ 23
    ∷ 22
    ∷ 21
    ∷ 20
    ∷ 19
    ∷ 18
    ∷ 17
    ∷ 16
    ∷ 15
    ∷ 14
    ∷ 13
    ∷ 12
    ∷ 11
    ∷ 10
    ∷ task_exit
    ∷ 8
    ∷ 7
    ∷ 6
    ∷ 5
    ∷ 4
    ∷ arg
    ∷ 2
    ∷ bit_or (bit_or spr_sr_iee spr_sr_tee) spr_sr_sm
    ∷ p_task
    ∷ []

-- The stack pointer of the new task, and the memory with its first frame.
unfoldable pub stack_init : (p_stk_base stk_size p_task arg task_exit : ℕ) → Words → ℕ × Words
unfolding store_down
stack_init p_stk_base stk_size p_task arg task_exit mem =
    let stk = p_stk_base + stk_size - 128 - 1 in
    (stk - 31, store_down (first_frame p_task arg task_exit) stk mem)
