-- ===== src/Start/Calls.antt =====
-- The calls of the kernel after `main` of app/system_start.c has handed over: of the loops of
-- kernel/idle.c, app/app_start.c as built without the tests, middleware/shell_parser/example.c and
-- middleware/uip/fos/main.c only what each calls of the kernel in a round, and the tick interrupt. What
-- the shell and the network task do between these calls is in Shell/Thread and Network.
use fos.Prelude.{
  ℕ, ◌+◌, ◌<◌, ◌≤◌, ◌≡◌, ◌∈◌, ◌∙◌, ap, refl, Bool, true, false, Bool-cases, inl, inr, arith,
  if◌then◌else◌, ◌==◌, Option, none, some, List, [], ◌∷◌,
}
use fos.LinkedList.{Addr}
use fos.LinkedList.Shape.{Lists}
use fos.Kernel.{Kernel, ◌>>=◌}
use fos.Sched.Models.{ready, Models}
use fos.Shell.{Shell}
use fos.Start.{Board}
use fos.Start.Main.{Program, main}
use fos.Start.Placed.{IsPlaced, tcbs, layout}
use fos.Start.First.{main-Sound}
use fos.System.{
  World, Call, run, do_schedule, do_os_delay, do_hardware_timer, Runs, start, call, Allowed,
}
use fos.System.Facts.{Sound}
use fos.System.Steady.{schedules}
use fos.System.Safety.{Runs-Sound, Runs-returns, Runs-IsTop}

-- The call of the kernel in the body of each loop.
abbrev pub idle_call : Call
idle_call = do_schedule

abbrev pub shell_call : Call
shell_call = do_os_delay 1

abbrev pub uip_call : Call
uip_call = do_os_delay 5

abbrev pub task1_call : Call
task1_call = do_os_delay 300

abbrev pub task2_call : Call
task2_call = do_os_delay 100

-- The call of the task with this TCB.
unfoldable pub loop_call : Program → Addr → Option Call
loop_call p t =
    if t == p.idle.tcb
    then some idle_call
    else if t == p.shell.tcb
    then some shell_call
    else if t == p.uip.tcb
    then some uip_call
    else if t == p.first.tcb
    then some task1_call
    else if t == p.second.tcb
    then some task2_call
    else none

module _ (w : World) (size : ℕ) (p : Program) where
  -- A tick, or the call of the kernel in the running task's loop.
  unfoldable pub step : (is_tick : Bool) → Kernel → Option Kernel
  unfolding loop_call
  step is_tick k =
      if is_tick
      then run w size do_hardware_timer k
      else loop_call p k.new_task >>= λ c. run w size c k

  unfoldable pub steps : List Bool → Kernel → Option Kernel
  steps [] k = some k
  steps (b ∷ bs) k = step b k >>= steps bs

abbrev Sleeps : Option Call → Type 0
Sleeps x = (n : ℕ) × (x ≡ some (do_os_delay n))

Sleeps-if :
    (b : Bool) (m : ℕ) {y : Option Call}
    → (b ≡ false → Sleeps y)
    → Sleeps (if b then some (do_os_delay m) else y)
Sleeps-if true m h = (m, refl)
Sleeps-if false m h = h refl

loop_call-Sleeps :
    (p : Program) (t : Addr) → t ∈ tcbs p → (t == p.idle.tcb) ≡ false → Sleeps (loop_call p t)
unfolding loop_call
loop_call-Sleeps p t i ne = rw ne (
    Sleeps-if (t == p.shell.tcb) 1 λ ne1. Sleeps-if (t == p.uip.tcb) 5 λ ne2.
      Sleeps-if (t == p.first.tcb) 300 λ ne3.
        Sleeps-if (t == p.second.tcb) 100 λ ne4. absurd (ground (arith, i, ne, ne1, ne2, ne3, ne4)))

loop_call-idle :
    (p : Program) (t : Addr) → (t == p.idle.tcb) ≡ true → loop_call p t ≡ some do_schedule
unfolding loop_call
loop_call-idle p t e = rw e refl

module _ (w : World) {size : ℕ} {p : Program} (place : IsPlaced size p) where
  -- A task of the program has a call, which it is allowed.
  loop_call-some :
      (t : Addr)
      → t ∈ tcbs p
      → (c : Call) × (loop_call p t ≡ some c)
        × (schedules c ≡ true)
        × ((k : Kernel) (lists : Lists) → k.new_task ≡ t → Allowed (layout size p place) c k lists)
  loop_call-some t i = elim (Bool-cases (t == p.idle.tcb)) [
    | inl e ↦ (do_schedule, loop_call-idle p t e, refl, λ k lists same. tt)
    | inr ne ↦
        let (n, e) = loop_call-Sleeps p t i ne in
        (do_os_delay n, e, refl, λ k lists same z. absurd (ground (arith, ne, same, z)))
  ]

  new_task-mem :
      {k : Kernel} {lists : Lists} → Sound (layout size p place) k lists → k.new_task ∈ tcbs p
  new_task-mem {k} g =
      let (q, lt, i) = g.running in
      ground (arith, lt, g.facts.roles (q + 1) k.new_task (g.models.statics q lt) i)

  step_lem :
      (is_tick : Bool) (k : Kernel)
      → step w size p is_tick k ≡ (
          if is_tick
          then run w size do_hardware_timer k
          else loop_call p k.new_task >>= λ c. run w size c k)
  unfolding step
  step_lem is_tick k = refl

  module _ {k0 : Kernel} {lists0 : Lists} (g : Sound (layout size p place) k0 lists0) where
    step-Runs :
        (is_tick : Bool) {k : Kernel} {cs : List Call}
        → Runs w (layout size p place) k0 cs k
        → (c : Call) × (k' : Kernel) × (step w size p is_tick k ≡ some k')
          × (schedules c ≡ true)
          × Runs w (layout size p place) k0 (c ∷ cs) k'
    step-Runs true {k} r =
        let (k', e) = Runs-returns w g r do_hardware_timer (λ lists m. tt) in
        (
          do_hardware_timer,
          k',
          step_lem true k ∙ e,
          refl,
          call r do_hardware_timer (λ lists m. tt) e,
        )
    step-Runs false {k} r =
        let (lists, g1) = Runs-Sound w g r in
        let (c, e, switches, may) = loop_call-some k.new_task (new_task-mem g1) in
        let (k', e') = Runs-returns w g r c (λ lists m. may k lists refl) in
        (
          c,
          k',
          step_lem false k ∙ ap (λ x. x >>= λ c. run w size c k) e ∙ e',
          switches,
          call r c (λ lists m. may k lists refl) e',
        )

    steps-Runs :
        (bs : List Bool) {k : Kernel} {c : Call} {cs : List Call}
        → Runs w (layout size p place) k0 (c ∷ cs) k
        → schedules c ≡ true
        → (c' : Call) × (cs' : List Call) × (k' : Kernel) × (steps w size p bs k ≡ some k')
          × (schedules c' ≡ true)
          × Runs w (layout size p place) k0 (c' ∷ cs') k'
    unfolding steps
    steps-Runs [] {k} {c} {cs} r switches = (c, cs, k, refl, switches, r)
    steps-Runs (b ∷ bs) r switches =
        let (c1, k1, e1, switches1, r1) = step-Runs b r in
        let (c2, cs2, k2, e2, switches2, r2) = steps-Runs bs r1 switches1 in
        (c2, cs2, k2, ap (λ x. x >>= steps w size p bs) e1 ∙ e2, switches2, r2)

    steps-IsTop :
        (b : Bool) (bs : List Bool)
        → (k : Kernel) × (lists : Lists) × (steps w size p (b ∷ bs) k0 ≡ some k)
          × Models (layout size p place).head k lists
          × (k.new_task ∈ tcbs p)
          × (k.new_task ∈ ready lists (k.tcb k.new_task).prio)
          × ((q : ℕ) (t : Addr) → q < 32 → t ∈ ready lists q → (k.tcb k.new_task).prio ≤ q)
    unfolding steps
    steps-IsTop b bs =
        let (c1, k1, e1, switches1, r1) = step-Runs b start in
        let (c, cs, k, e, switches, r) = steps-Runs bs r1 switches1 in
        let (lists, m, i, top) = Runs-IsTop w g r switches in
        let (lists', g') = Runs-Sound w g r in
        (k, lists, ap (λ x. x >>= steps w size p bs) e1 ∙ e, m, new_task-mem g', i, top)

-- From cleared globals, with room for the commands of the shell and with the tasks of the program
-- apart from each other in memory, `main` comes to start_which_task and hands over to the idle task.
-- From there, for every pattern of ticks and of calls of the kernel that the loop of the running task
-- comes to, one after the other: every tick and every call returns, with no assertion failed and no
-- walk cut short, and after it the running task is one of the program's five, ready, and no ready task
-- has a higher priority. That a loop comes to its next call is not stated.
pub main-steps :
    (w : World) (size : ℕ) (p : Program) (place : IsPlaced size p) (b : Board) (s : Shell)
    (is_tick : Bool) (more : List Bool)
    → b.kernel.map.y ≡ 0
    → ((i : ℕ) → b.kernel.map.c i ≡ 0)
    → ((t : Addr) → (b.kernel.tcb t).prio < 32)
    → b.kernel.schedule_is_lock ≡ false
    → s.temp < 7
    → 0 < size
    → (b' : Board) × (s' : Shell) × (k : Kernel) × (lists : Lists) × (main w.memset w.stack_init
          size p b s
        ≡ some (b', s'))
      × (steps w size p (is_tick ∷ more) b'.kernel ≡ some k)
      × Models (layout size p place).head k lists
      × (k.new_task ∈ tcbs p)
      × (k.new_task ∈ ready lists (k.tcb k.new_task).prio)
      × ((q : ℕ) (t : Addr) → q < 32 → t ∈ ready lists q → (k.tcb k.new_task).prio ≤ q)
main-steps w size p place b s is_tick more y c prios lock few room =
    let (b', s', e, idle, g) =
      main-Sound w.memset w.stack_init size size p place b s y c prios lock few room in
    let (k, lists, e', rest, mem, i, top) = steps-IsTop w place g is_tick more in
    (b', s', k, lists, e, e', rest, mem, i, top)
