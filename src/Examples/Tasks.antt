-- ===== src/Examples/Tasks.antt =====
-- The theorems on tasks and timers at the state of State.
use fos.Prelude.{◌≡◌, refl, some, [], ◌∷◌, arith, update, ◌==◌, if◌then◌else◌}
use fos.LinkedList.{Links}
use fos.LinkedList.Shape.{Loose}
use fos.PrioMap.{PrioMap}
use fos.Kernel.{Kernel, true_code, set_prio}
use fos.Sched.Models.{Models}
use fos.Sched.Fetch.{Highest}
use fos.Sched.Switch.{switch_to}
use fos.Mutex.Ceiling.{moved}
use fos.Task.{Words, task_prio_change, task_check_stack}
use fos.Task.Prio.{task_prio_change-moves}
use fos.Task.Stack.{Scanned, task_check_stack-Scanned}
use fos.Timer.{set_tick, os_delay, delay_style}
use fos.Timer.Sleep.{asleep, os_delay-sleeps}
use fos.Examples.State.{head, port, boot, lists, boot-Models}

task_prio_change-moves_example :
    (l : Links) × (m : PrioMap) × (task_prio_change 200 7 boot
      ≡ some (true_code, record (set_prio boot 200 7) { links = l; map = m }))
    × Models head (record (set_prio boot 200 7) { links = l; map = m }) (moved lists 3 7 200)
task_prio_change-moves_example =
    task_prio_change-moves boot-Models 3 7 (omega arith) (omega arith) (omega arith) refl

-- A stack of 10 words whose word 2006 is in use.
abbrev stack : Words
stack a = if a == 2006 then 1 else 0

task_check_stack-Scanned_example : Scanned 10 2010 stack (task_check_stack 200 10 boot stack)
task_check_stack-Scanned_example = task_check_stack-Scanned 200 10 boot stack

delay-Loose : Loose head lists 201
delay-Loose = record { free = λ h hh. ground arith; no_head = refl }

asleep-Highest : Highest (asleep lists 3 200) 5 202 []
asleep-Highest = record { in_range = omega arith; first = refl; none_above = λ q h. ground arith }

-- The delay of task 200, filled in.
abbrev delayed : Kernel
delayed =
    set_tick boot 201
      (record (boot.tick 201) { tcb = 200; timeout = 6; timeout_copy = 6; style = delay_style })

os_delay-sleeps_example :
    (l : Links) × (m : PrioMap) × (os_delay port 9 6 boot
      ≡ some (switch_to 202 (record delayed { links = l; map = m })))
    × Models head
        (switch_to 202 (record delayed { links = l; map = m }))
        (update (asleep lists 3 200) 6 (202 ∷ []))
os_delay-sleeps_example =
    os_delay-sleeps port 9 boot-Models refl (omega arith) 6 {p = 3} refl (omega arith) refl
      delay-Loose asleep-Highest (omega arith)
