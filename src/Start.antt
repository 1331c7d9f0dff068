-- ===== src/Start.antt =====
-- app/system_start.c: `system_init`, as it is built for the host, where `hw_interrupt_init` and
-- `uart_init` of cpu/linux/port.c do nothing. The addresses of `idle_tcb`, `idle_task`, `idle_stack`
-- and of the name are parameters; the priority and the stack size are those of the code.
pub mod Boot
pub mod Main
pub mod Placed
pub mod First
pub mod Calls
use fos.Prelude.{ℕ, Option, some}
use fos.LinkedList.{Addr, null}
use fos.Kernel.{Kernel, ◌>>=◌}
use fos.Sched.{prio_ready_queue_init}
use fos.Timer.{tick_queue_init}
use fos.Device.{Devices, device_queue_init}
use fos.Task.{Words, task_create}

abbrev pub idle_stack_size : ℕ
idle_stack_size = 4096

pub record Board : Type 0 where
  pub kernel : Kernel
  pub devices : Devices
  pub words : Words

unfoldable pub system_init :
    (memset : ℕ → ℕ → ℕ → Words → Words) (stack_init : ℕ → ℕ → ℕ → ℕ → ℕ) (fuel : ℕ)
    (idle_tcb idle_name idle_task idle_stack : ℕ)
    → Board
    → Option Board
system_init memset stack_init fuel idle_tcb idle_name idle_task idle_stack b = do
  let k = tick_queue_init (prio_ready_queue_init b.kernel)
  let devices = device_queue_init b.devices
  let k = record k { old_task = null }
  (r, k, words) ←
      task_create memset stack_init fuel idle_tcb idle_name idle_task null idle_stack
        idle_stack_size 31 1 k b.words
  some (record { kernel = k; devices = devices; words = words })
