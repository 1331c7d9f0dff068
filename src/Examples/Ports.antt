-- ===== src/Examples/Ports.antt =====
-- The theorems on the context switch of cpu/riscv/sifive_e at concrete values.
use Prim.Native.Nat.{bit_or}
use fos.Prelude.{◌∈◌, inr, ℕ, ◌+◌, ◌≡◌, refl, arith, some, [], ◌∷◌}
use fos.Task.{Words}
use fos.Cpu.Or1ksim.Uart.{write_reg}
use fos.Cpu.Riscv
use fos.Cpu.Riscv.{auxv, sifive_uart_init}
use fos.Cpu.Riscv.Switch.{Machine, saved, start_schedule, port_schedule}
use fos.Cpu.Riscv.Switch.Resume.{port_schedule-resumes}
use fos.Cpu.Riscv.Switch.Enter.{start_schedule-enters}

-- The serial port of the board, and a divisor for its rate.
uart_of_board :
    sifive_uart_init auxv []
    ≡ some (
      0x10013000,
      write_reg 0x10013010 0
          ∷ write_reg 0x1001300c 1
          ∷ write_reg 0x10013008 1
          ∷ write_reg 0x10013018 276
          ∷ [],
    )
unfolding sifive_uart_init
uart_of_board = refl

-- A machine that is about to run task 40, which `stack_init` has prepared.
abbrev prepared : ℕ × Words
prepared = Riscv.stack_init 7 0x80000000 100 0x20400000 5 0x20400100 (λ a. 0)

abbrev reset : Machine
reset = record {
  x = λ i. i;
  sp = 0x80001000;
  pc = 0x20400000;
  mstatus = 0;
  mem = prepared.1;
  stack_ptr = λ t. prepared.0;
  old_task = 40;
  new_task = 40;
}

start_schedule-enters_example :
    ((start_schedule (λ s. s) reset).pc ≡ 0x20400000)
    × ((start_schedule (λ s. s) reset).sp ≡ 0x80000000 + 400)
    × ((start_schedule (λ s. s) reset).mstatus ≡ 0x1880)
    × ((start_schedule (λ s. s) reset).x 10 ≡ 5)
    × ((start_schedule (λ s. s) reset).x 1 ≡ 0x20400100)
    × ((start_schedule (λ s. s) reset).x 3 ≡ 7)
start_schedule-enters_example =
    start_schedule-enters (λ s. s) 7 0x80000000 100 0x20400000 5 0x20400100 (λ a. 0) reset refl
      (omega arith) (omega arith) refl refl

-- Task 40 gives way to task 42, and 42 to 40.
abbrev leaving : Machine
leaving = record reset { sp = 0x80000190; new_task = 42; mem = λ a. 0; stack_ptr = λ t. 0x80001000 }

abbrev returning : Machine
returning = record (port_schedule (λ s. s) leaving) {
  sp = 0x80001080;
  old_task = 42;
  new_task = 40;
  x = λ i. 0;
}

port_schedule-resumes_example :
    ((port_schedule (λ s. s) returning).sp ≡ 0x80000190)
    × ((port_schedule (λ s. s) returning).pc ≡ 1)
    × ((port_schedule (λ s. s) returning).mstatus ≡ bit_or 0 0x1800)
    × ((i : ℕ) → i ∈ saved → (port_schedule (λ s. s) returning).x i ≡ i)
port_schedule-resumes_example =
    port_schedule-resumes (λ s. s) leaving returning (omega arith) (omega arith) (omega arith)
      (omega arith) refl (λ e. absurd (omega (arith, e))) refl (λ a lo hi. refl) (inr (omega arith))
