-- ===== src/Cpu.antt =====
-- The processor ports of cpu, as far as they are C, and the context switch of riscv. Linux and
-- Or1ksim fill the interface `Port` of the kernel; Riscv, whose files have no primitive for
-- interrupts, does not.
pub mod Linux
pub mod Or1ksim
pub mod Riscv
