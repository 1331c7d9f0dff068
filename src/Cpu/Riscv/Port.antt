-- ===== src/Cpu/Riscv/Port.antt =====
-- The serial port, cpu/riscv/sifive_e/uart.c.
use fos.Prelude.{
  ℕ, zero, suc, ◌%◌, ◌^◌, ◌<◌, ◌≤◌, ◌≡◌, inl, inr, Bool-cases, some, List, ◌∷◌, arith, ltb,
}
use fos.Cpu.Or1ksim.Uart.{Access, Device, read_reg, write_reg}
use fos.Cpu.Riscv.{sifive_uart_putchar}

-- The log after `i` more reads of the register at `a`.
abbrev pub reads : ℕ → ℕ → List Access → List Access
reads zero a log = log
reads (suc i) a log = reads i a (read_reg a ∷ log)

-- If the transmitter has room after some reads, fewer than the fuel, the low byte is written once,
-- right behind a read that shows room, and returned.
sifive_uart_putchar-writes :
    (device : Device) (uart fuel ch i : ℕ) (log : List Access)
    → i < fuel
    → device (reads i uart log) uart < 2 ^ 31
    → (j : ℕ) × (j ≤ i)
      × (device (reads j uart log) uart < 2 ^ 31)
      × (sifive_uart_putchar device uart fuel ch log
          ≡ some (ch % 256, write_reg uart (ch % 256) ∷ reads (suc j) uart log))
unfolding sifive_uart_putchar
sifive_uart_putchar-writes device uart zero ch i log lt room = absurd (omega arith)
sifive_uart_putchar-writes device uart (suc fuel) ch zero log lt room =
    (0, omega arith, room, ground (arith, room))
sifive_uart_putchar-writes device uart (suc fuel) ch (suc i) log lt room =
    let (j, le, r, e) =
      sifive_uart_putchar-writes device uart fuel ch i (read_reg uart ∷ log) (omega arith) room in
    elim (Bool-cases (ltb (device log uart) (2 ^ 31))) [
      | inl now ↦ (0, omega arith, ground (arith, now), ground (arith, now))
      | inr later ↦ (suc j, omega arith, r, ground (arith, later, e))
    ]
