-- ===== src/Start/Main.antt =====
-- `main` of app/system_start.c with `app_main` of app/app_start.c, as built with SHELL and without the
-- tests, and `uip_thread_init` of middleware/uip/fos/main.c. The addresses that the linker gives are
-- a parameter. `hw_timer_init` of cpu/linux/port.c only sets a timer of the host.
use fos.Prelude.{ℕ, Option, some}
use fos.LinkedList.{Addr, null}
use fos.Kernel.{Kernel, ◌>>=◌}
use fos.Sched.{start_which_task}
use fos.Task.{Words, task_create}
use fos.Shell.{Shell}
use fos.Shell.Thread.{shell_init}
use fos.Start.{Board, system_init}

-- A task as it stands in the program: the addresses of its TCB, name, function and stack.
pub record Static : Type 0 where
  pub tcb : Addr
  pub name : ℕ
  pub fun : ℕ
  pub stack : ℕ

-- The static tasks, and the commands of the shell with the addresses of their names; `names 4` is that
-- of the task of the shell.
pub record Program : Type 0 where
  pub idle : Static
  pub shell : Static
  pub uip : Static
  pub first : Static
  pub second : Static
  pub help : ℕ
  pub version : ℕ
  pub show : ℕ
  pub show_memory_use : ℕ
  pub names : ℕ → ℕ

abbrev pub stack_size : ℕ
stack_size = 4096

abbrev pub stack_uip_size : ℕ
stack_uip_size = 4096

module _ (memset : ℕ → ℕ → ℕ → Words → Words) (stack_init : ℕ → ℕ → ℕ → ℕ → ℕ) (fuel : ℕ)
    (p : Program) where
  unfoldable pub uip_thread_init : Kernel → Words → Option (Kernel × Words)
  uip_thread_init k mem = do
    (r, k, mem) ←
        task_create memset stack_init fuel p.uip.tcb p.uip.name p.uip.fun null p.uip.stack
          stack_uip_size 29 1 k mem
    some (k, mem)

  unfoldable pub app_main : Kernel → Words → Option (Kernel × Words)
  app_main k mem = do
    (r, k, mem) ←
        task_create memset stack_init fuel p.first.tcb p.first.name p.first.fun null p.first.stack
          stack_size 3 1 k mem
    (r, k, mem) ←
        task_create memset stack_init fuel p.second.tcb p.second.name p.second.fun null
          p.second.stack stack_size 4 1 k mem
    some (k, mem)

  -- Up to the hand-over by start_which_task; on a port its start_schedule does not return, and the
  -- assertion and the endless loop behind it are never reached.
  unfoldable pub main : Board → Shell → Option (Board × Shell)
  unfolding uip_thread_init app_main
  main b s = do
    b ← system_init memset stack_init fuel p.idle.tcb p.idle.name p.idle.fun p.idle.stack b
    (s, k, mem) ←
        shell_init memset stack_init fuel p.help p.version p.show p.show_memory_use p.names
          p.shell.tcb p.shell.fun p.shell.stack s b.kernel b.words
    (k, mem) ← uip_thread_init k mem
    (k, mem) ← app_main k mem
    k ← start_which_task p.idle.tcb k
    some (record b { kernel = k; words = mem }, s)
