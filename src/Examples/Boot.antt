-- ===== src/Examples/Boot.antt =====
-- The theorems on the start of the system, on the calls of its tasks and on the interrupts of the
-- or1ksim port.
use fos.Prelude.{
  ℕ, ◌<◌, ◌≤◌, ◌∈◌, true, false, ◌∷◌, ◌+◌, ◌-◌, ◌*◌, ◌≡◌, refl, some, [], arith, update,
}
use fos.Task.{Words}
use fos.Start.{Board}
use fos.Start.Main.{Static, Program, main}
use fos.Start.Placed.{IsPlaced, tcbs, layout, started}
use fos.Start.Calls.{steps, main-steps}
use fos.LinkedList.{Addr}
use fos.LinkedList.Shape.{Lists}
use fos.Kernel.{Kernel}
use fos.Sched.Models.{ready, Models}
use fos.Examples.Runs.{world}
use fos.Start.First.{main-Sound}
use fos.Shell.{Shell}
use fos.System.Facts.{Sound}
use fos.Cpu.Or1ksim.{Cpu, usr_handle, hw_interrupt_install}
use fos.Cpu.Or1ksim.Dispatch.{usr_handle-installed}
use fos.Examples.State.{start}

-- A `memset` of one word, and a port that leaves 16 words on a new stack.
abbrev memset : ℕ → ℕ → ℕ → Words → Words
memset s byte n mem = update mem s byte

abbrev stack_init : ℕ → ℕ → ℕ → ℕ → ℕ
stack_init stack size fun arg = stack + size - 16

abbrev board : Board
board = record {
  kernel = start;
  devices = record {
    links = start.links;
    device = λ a. record { enable = 0; name = 0; ops = 0; open_count = 0; flag = 0 };
    ops = λ a. record { open_fn = 0; read = 0; write = 0; ioctrl = 0; close = 0 };
    times = 0;
    calls = [];
  };
  words = λ a. a;
}

-- The five tasks of the program at 200 to 208, each with its delay behind it.
abbrev task : ℕ → Static
task t = record { tcb = t; name = 1; fun = 70; stack = t * 100 }

abbrev program : Program
program = record {
  idle = task 200;
  shell = task 202;
  uip = task 204;
  first = task 206;
  second = task 208;
  help = 60;
  version = 61;
  show = 62;
  show_memory_use = 63;
  names = λ i. i + 10;
}

abbrev commands : Shell
commands = record { next = λ a. 0; symbol = λ a. record { func = 0; name = 0 }; temp = 0; ran = [] }

program-IsPlaced : IsPlaced 400 program
program-IsPlaced = record {
  idle = record {
    far = omega arith;
    inside = omega arith;
    fun = omega arith;
    stack = omega arith;
    apart = tt;
  };
  shell = record {
    far = omega arith;
    inside = omega arith;
    fun = omega arith;
    stack = omega arith;
    apart = ground arith;
  };
  uip = record {
    far = omega arith;
    inside = omega arith;
    fun = omega arith;
    stack = omega arith;
    apart = ground arith;
  };
  first = record {
    far = omega arith;
    inside = omega arith;
    fun = omega arith;
    stack = omega arith;
    apart = ground arith;
  };
  second = record {
    far = omega arith;
    inside = omega arith;
    fun = omega arith;
    stack = omega arith;
    apart = ground arith;
  };
}

main-Sound_example :
    (b' : Board) × (s' : Shell) × (main memset stack_init 9 program board commands ≡ some (b', s'))
    × (b'.kernel.new_task ≡ 200)
    × Sound (layout 400 program program-IsPlaced) b'.kernel (started program)
main-Sound_example =
    main-Sound memset stack_init 9 400 program program-IsPlaced board commands refl (λ i. refl)
      (λ t. ground arith) refl (omega arith) (omega arith)

-- A turn of the idle task, a tick, and a turn of the task that runs then.
main-steps_example :
    (b' : Board) × (s' : Shell) × (k : Kernel) × (ls : Lists) × (main world.memset world.stack_init
        400 program board commands
      ≡ some (b', s'))
    × (steps world 400 program (false ∷ true ∷ false ∷ []) b'.kernel ≡ some k)
    × Models (layout 400 program program-IsPlaced).head k ls
    × (k.new_task ∈ tcbs program)
    × (k.new_task ∈ ready ls (k.tcb k.new_task).prio)
    × ((q : ℕ) (t : Addr) → q < 32 → t ∈ ready ls q → (k.tcb k.new_task).prio ≤ q)
main-steps_example =
    main-steps world 400 program program-IsPlaced board commands false (true ∷ false ∷ []) refl
      (λ i. refl) (λ t. ground arith) refl (omega arith) (omega arith)

-- Interrupt 2 is pending; a handler only turns the supervision register to its argument.
abbrev cpu : Cpu
cpu = record { sr = 7; picmr = 1; picsr = 4; int_handlers = λ i. record { handler = 60; arg = 61 } }

abbrev call : ℕ → ℕ → Cpu → Cpu
call func arg c = record c { sr = arg }

usr_handle-installed_example :
    usr_handle call (hw_interrupt_install 2 80 9 cpu).1
    ≡ record (call 80 9 (hw_interrupt_install 2 80 9 cpu).1) { picsr = 0 }
usr_handle-installed_example = usr_handle-installed call 2 80 9 cpu (omega arith) (omega arith) refl
