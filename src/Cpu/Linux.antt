-- ===== src/Cpu/Linux.antt =====
-- cpu/linux/port.c: on the host, disabling and enabling interrupts does nothing.
use fos.Prelude.{ℕ, refl}
use fos.Kernel.{Port}

unfoldable pub interrupt_enable : ℕ → ℕ → ℕ
interrupt_enable sr_cpu sr = sr

unfoldable pub interrupt_disable : ℕ → ℕ × ℕ
interrupt_disable sr = (0, sr)

pub port : Port
unfolding interrupt_enable interrupt_disable
port = record {
  interrupt_disable = interrupt_disable;
  interrupt_enable = interrupt_enable;
  restores = λ s. refl;
}
