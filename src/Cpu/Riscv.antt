-- ===== src/Cpu/Riscv.antt =====
-- cpu/riscv/sifive_e: support.c, the first frame of a task and the fill of memory, and uart.c, the
-- serial port. Memory is a function of 32-bit words at byte addresses for the frame. `gp` is what the
-- assembly reads from the global pointer. The accesses to the port are listed, the last first, and
-- `device log a` is what a read of the address `a` shows after them; the wait is on fuel.
pub mod Frame
pub mod Port
pub mod Switch
use Prim.Native.Nat.{bit_or}
use fos.Prelude.{
  ℕ, zero, suc, ◌+◌, ◌-◌, ◌*◌, ◌/◌, ◌%◌, ◌^◌, Option, none, some, List, [], ◌∷◌, ltb, ◌==◌,
  if◌then◌else◌, update,
}
use fos.Kernel.{◌>>=◌}
use fos.Task.{Words}
use fos.Libc.{Memory}
use fos.Cpu.Or1ksim.Uart.{read_reg, put_reg, Access, Device}

-- sizeof(cpu_context_t)/sizeof(uint32_t): `mepc`, `mstatus`, `x1` and `x3` to `x31`.
abbrev pub context_words : ℕ
context_words = 32

-- The places of the fields in `cpu_context_t`.
abbrev pub mepc : ℕ
mepc = 0

abbrev pub mstatus : ℕ
mstatus = 1

abbrev pub ra : ℕ
ra = 2

abbrev pub gp_word : ℕ
gp_word = 3

abbrev pub a0 : ℕ
a0 = 10

-- 0xACEADD00 | ((i / 10) << 4) | (i % 10)
unfoldable pub mark : ℕ → ℕ
mark i = bit_or (bit_or 0xACEADD00 (i / 10 * 16)) (i % 10)

-- The loop of `stack_init`, over the rounds left.
unfoldable pub fill_context : ℕ → ℕ → ℕ → Words → Words
fill_context zero i stk mem = mem
fill_context (suc left) i stk mem =
    fill_context left (i + 1) stk (update mem (stk + 4 * i) (mark i))

-- The end of the stack, `& 0xFFFFFFFC`, less one context, as 32-bit addresses.
unfoldable pub frame_base : (stack_base stack_size : ℕ) → ℕ
frame_base stack_base stack_size =
    let stk = (stack_base + 4 * stack_size) % 2 ^ 32 in
    let stk = stk - stk % 4 in (stk + 2 ^ 32 - 4 * context_words) % 2 ^ 32

-- The stack pointer of the new task, and the memory with its first context.
unfoldable pub stack_init : (gp stack_base stack_size entry arg task_exit : ℕ) → Words → ℕ × Words
stack_init gp stack_base stack_size entry arg task_exit mem =
    let stk = frame_base stack_base stack_size in
    let mem = fill_context (context_words - 1) 1 stk mem in
    let mem = update mem (stk + 4 * gp_word) gp in
    let mem = update mem (stk + 4 * a0) arg in
    let mem = update mem (stk + 4 * ra) task_exit in
    let mem = update mem (stk + 4 * mstatus) 0x00001880 in (stk, update mem (stk + 4 * mepc) entry)

-- `_memset`; a byte of memory takes `c` as a char.
unfoldable pub memset : (dest c n : ℕ) → Memory → Memory
memset dest c zero mem = mem
memset dest c (suc n) mem = memset (dest + 1) c n (update mem dest (c % 256))

pub record Auxval : Type 0 where
  pub key : ℕ
  pub val : ℕ

abbrev pub uart0_clock_freq : ℕ
uart0_clock_freq = 0x00011000

abbrev pub uart0_baud_rate : ℕ
uart0_baud_rate = 0x00011100

abbrev pub sifive_uart0_ctrl_addr : ℕ
sifive_uart0_ctrl_addr = 0x55550010

abbrev pub sifive_test_ctrl_addr : ℕ
sifive_test_ctrl_addr = 0x55550002

-- `__auxv`
abbrev pub auxv : List Auxval
auxv =
    record { key = uart0_clock_freq; val = 32000000 }
    ∷ record { key = uart0_baud_rate; val = 115200 }
    ∷ record { key = sifive_uart0_ctrl_addr; val = 0x10013000 }
    ∷ record { key = sifive_test_ctrl_addr; val = 0x100000 }
    ∷ record { key = 0; val = 0 }
    ∷ []

-- `getauxval`, on a table; `none` is a read behind a table without an end.
unfoldable pub getauxval : ℕ → List Auxval → Option ℕ
getauxval key [] = none
getauxval key (a ∷ auxv) =
    let rest = getauxval key auxv in
    if a.key == 0 then some 0 else if a.key == key then some a.val else rest

-- The registers, each a word behind the one before.
abbrev pub uart_reg_txfifo : ℕ
uart_reg_txfifo = 0

abbrev pub uart_reg_rxfifo : ℕ
uart_reg_rxfifo = 1

abbrev pub uart_reg_txctrl : ℕ
uart_reg_txctrl = 2

abbrev pub uart_reg_rxctrl : ℕ
uart_reg_rxctrl = 3

abbrev pub uart_reg_ie : ℕ
uart_reg_ie = 4

abbrev pub uart_reg_div : ℕ
uart_reg_div = 6

-- The static pointer `uart`, and the accesses. No value is that of a division by a rate of 0.
unfoldable pub sifive_uart_init : List Auxval → List Access → Option (ℕ × List Access)
unfolding getauxval
sifive_uart_init auxv log = getauxval sifive_uart0_ctrl_addr auxv >>= λ uart.
    getauxval uart0_clock_freq auxv >>= λ uart_freq. getauxval uart0_baud_rate auxv >>= λ baud_rate.
    if baud_rate % 2 ^ 32 == 0
    then none
    else (let divisor = (uart_freq % 2 ^ 32 / (baud_rate % 2 ^ 32) + 2 ^ 32 - 1) % 2 ^ 32 in
        let log = put_reg (uart + 4 * uart_reg_div) divisor log in
        let log = put_reg (uart + 4 * uart_reg_txctrl) 1 log in
        let log = put_reg (uart + 4 * uart_reg_rxctrl) 1 log in
        some (uart, put_reg (uart + 4 * uart_reg_ie) 0 log))

module _ (device : Device) (uart : ℕ) where
  -- A word is negative if it is 2 ^ 31 or more.
  unfoldable pub sifive_uart_putchar : ℕ → ℕ → List Access → Option (ℕ × List Access)
  sifive_uart_putchar zero ch log = none
  sifive_uart_putchar (suc fuel) ch log =
      let free = ltb (device log (uart + 4 * uart_reg_txfifo)) (2 ^ 31) in
      let log = read_reg (uart + 4 * uart_reg_txfifo) ∷ log in
      let rest = sifive_uart_putchar fuel ch log in
      if free then some (ch % 256, put_reg (uart + 4 * uart_reg_txfifo) (ch % 256) log) else rest

  -- `none` is the result -1.
  unfoldable pub sifive_uart_getchar : List Access → Option ℕ × List Access
  sifive_uart_getchar log =
      let ch = device log (uart + 4 * uart_reg_rxfifo) in
      (if ltb ch (2 ^ 31) then some ch else none, read_reg (uart + 4 * uart_reg_rxfifo) ∷ log)
