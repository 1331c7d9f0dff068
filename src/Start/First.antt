-- ===== src/Start/First.antt =====
-- The kernel as `main` of app/system_start.c leaves it.
use fos.Prelude.{ℕ, ◌+◌, ◌<◌, ◌≡◌, ◌≢◌, refl, true, false, some, [], ◌∷◌, arith, update, has, ◌∙◌}
use fos.LinkedList.{Addr, null}
use fos.LinkedList.Shape.{Lists}
use fos.Kernel.{Kernel}
use fos.Sched.{start_which_task}
use fos.Sched.Models.{ready, Models, rebase}
use fos.Sched.Fetch.{Models-ext}
use fos.Task.{Words, task_create}
use fos.Task.Create.{task_create-queues}
use fos.Shell
use fos.Shell.{Shell, export_symbol, sym_head}
use fos.Shell.Thread.{shell_init, stack_shell_size}
use fos.Start.{Board, system_init}
use fos.Start.Boot.{head, only_idle, system_init-Models}
use fos.Start.Main.{Program, main, uip_thread_init, app_main, stack_size, stack_uip_size}
use fos.System.Facts.{Sound}
use fos.Start.Placed.{IsPlaced, started, layout, started-Facts}

-- One more task of a priority that none has yet.
one_task :
    (memset : ℕ → ℕ → ℕ → Words → Words) (stack_init : ℕ → ℕ → ℕ → ℕ → ℕ) (fuel : ℕ) {k : Kernel}
    {lists : Lists}
    → Models head k lists
    → (tcb name fun stack size prio : ℕ) (mem : Words) → 33 < tcb
    → fun ≢ null
    → stack ≢ null
    → prio < 32
    → 0 < fuel
    → ready lists prio ≡ []
    → ((h : Addr) → head h ≡ true → has tcb (lists h) ≡ false)
    → (k' : Kernel) × (mem' : Words) × (task_create memset stack_init fuel tcb name fun null stack
          size prio 1 k mem
        ≡ some (1, k', mem'))
      × Models head k' (update lists (prio + 1) (tcb ∷ []))
      × (k'.schedule_is_lock ≡ k.schedule_is_lock)
one_task memset stack_init fuel v tcb name fun stack size prio mem far nf ns lt room none out =
    let (l, m, e, v1) =
      task_create-queues memset stack_init fuel v tcb name fun null stack size prio 1 mem
        (omega arith) nf ns lt (record { free = out; no_head = ground arith })
        (ground (arith, none)) in
    (_, _, e, Models-ext v1 (λ h. ground (arith, none)), refl)

-- The lists while the tasks come, and that each is new to them.
abbrev with_shell : Program → Lists
with_shell p = update (only_idle p.idle.tcb) 31 (p.shell.tcb ∷ [])

abbrev with_uip : Program → Lists
with_uip p = update (with_shell p) 30 (p.uip.tcb ∷ [])

abbrev with_first : Program → Lists
with_first p = update (with_uip p) 4 (p.first.tcb ∷ [])

module _ {size : ℕ} {p : Program} (place : IsPlaced size p) where
  shell_new : (h : Addr) → has p.shell.tcb (only_idle p.idle.tcb h) ≡ false
  shell_new h = ground (arith, place.shell.apart)

  uip_new : (h : Addr) → has p.uip.tcb (with_shell p h) ≡ false
  uip_new h = ground (arith, place.uip.apart)

  first_new : (h : Addr) → has p.first.tcb (with_uip p h) ≡ false
  first_new h = ground (arith, place.first.apart)

  second_new : (h : Addr) → has p.second.tcb (with_first p h) ≡ false
  second_new h = ground (arith, place.second.apart)

module _ (memset : ℕ → ℕ → ℕ → Words → Words) (stack_init : ℕ → ℕ → ℕ → ℕ → ℕ) (fuel : ℕ)
    (p : Program) where
  one_export :
      (func name : ℕ) (s : Shell)
      → s.temp < 10
      → (s' : Shell) × (export_symbol func name s ≡ some s') × (s'.temp ≡ s.temp + 1)
  unfolding export_symbol Shell.list_insert
  one_export func name s few = (
    Shell.list_insert sym_head (s.temp + 1) (record s {
      temp = s.temp + 1;
      symbol = update s.symbol (s.temp + 1) (record { func = func; name = name });
    }),
    ground (arith, few),
    refl,
  )

  -- The parts of `main` one after another.
  composed :
      (b : Board) (s : Shell) {b1 : Board} {s1 s2 s3 s4 : Shell} {k2 k3 k4 k5 : Kernel}
      {w2 w3 w4 w5 : Words}
      → 33 < p.idle.tcb
      → system_init memset stack_init fuel p.idle.tcb p.idle.name p.idle.fun p.idle.stack b
        ≡ some b1
      → export_symbol p.help (p.names 0) s ≡ some s1
      → export_symbol p.version (p.names 1) s1 ≡ some s2
      → export_symbol p.show (p.names 2) s2 ≡ some s3
      → export_symbol p.show_memory_use (p.names 3) s3 ≡ some s4
      → task_create memset stack_init fuel p.shell.tcb
          (p.names 4)
          p.shell.fun
          null
          p.shell.stack
          stack_shell_size
          30
          1
          b1.kernel
          b1.words
        ≡ some (1, k2, w2)
      → task_create memset stack_init fuel p.uip.tcb p.uip.name p.uip.fun null p.uip.stack
          stack_uip_size 29 1 k2 w2
        ≡ some (1, k3, w3)
      → task_create memset stack_init fuel p.first.tcb p.first.name p.first.fun null p.first.stack
          stack_size 3 1 k3 w3
        ≡ some (1, k4, w4)
      → task_create memset stack_init fuel p.second.tcb p.second.name p.second.fun null
          p.second.stack stack_size 4 1 k4 w4
        ≡ some (1, k5, w5)
      → main memset stack_init fuel p b s
        ≡ some (
          record b1 {
            kernel = record k5 { new_task = p.idle.tcb; context = (k5.tcb p.idle.tcb).stack_ptr };
            words = w5;
          },
          s4,
        )
  unfolding main shell_init uip_thread_init app_main start_which_task
  composed b s far e1 x1 x2 x3 x4 e2 e3 e4 e5 =
      ground (arith, far, e1, x1, x2, x3, x4, e2, e3, e4, e5)

started-Sound :
    (size : ℕ) (p : Program) (place : IsPlaced size p) (k : Kernel)
    → Models head k (update (with_first p) 5 (p.second.tcb ∷ []))
    → k.schedule_is_lock ≡ false
    → Sound
        (layout size p place)
        (record k { new_task = p.idle.tcb; context = (k.tcb p.idle.tcb).stack_ptr })
        (started p)
started-Sound size p place k v lock = record {
  models = Models-ext (rebase _ v refl refl refl) (λ h. ground arith);
  running = (31, omega arith, ground arith);
  facts = started-Facts size p place _ lock;
}

-- From cleared globals, with room for the commands of the shell and with the tasks of the program apart
-- from each other, `main` comes to the hand-over: the idle task runs, the tasks are ready in the queues
-- of their priorities, and the kernel is sound.
pub main-Sound :
    (memset : ℕ → ℕ → ℕ → Words → Words) (stack_init : ℕ → ℕ → ℕ → ℕ → ℕ) (fuel size : ℕ)
    (p : Program) (place : IsPlaced size p) (b : Board) (s : Shell)
    → b.kernel.map.y ≡ 0
    → ((i : ℕ) → b.kernel.map.c i ≡ 0)
    → ((t : Addr) → (b.kernel.tcb t).prio < 32)
    → b.kernel.schedule_is_lock ≡ false
    → s.temp < 7
    → 0 < fuel
    → (b' : Board) × (s' : Shell) × (main memset stack_init fuel p b s ≡ some (b', s'))
      × (b'.kernel.new_task ≡ p.idle.tcb)
      × Sound (layout size p place) b'.kernel (started p)
main-Sound memset stack_init fuel size p place b s y c prios lock few room =
    let (b1, e1, v1, h1, l1) =
      system_init-Models memset stack_init fuel p.idle.tcb p.idle.name p.idle.fun p.idle.stack b y c
        prios place.idle.far place.idle.fun place.idle.stack room in
    let (s1, x1, n1) = one_export memset stack_init fuel p p.help (p.names 0) s (omega arith) in
    let (s2, x2, n2) = one_export memset stack_init fuel p p.version (p.names 1) s1 (omega arith) in
    let (s3, x3, n3) = one_export memset stack_init fuel p p.show (p.names 2) s2 (omega arith) in
    let (s4, x4, n4) =
      one_export memset stack_init fuel p p.show_memory_use (p.names 3) s3 (omega arith) in
    let (k2, w2, e2, v2, l2) =
      one_task memset stack_init fuel v1 p.shell.tcb (p.names 4) p.shell.fun p.shell.stack
        stack_shell_size 30 b1.words place.shell.far place.shell.fun place.shell.stack (omega arith)
        room refl (λ h hh. shell_new place h) in
    let (k3, w3, e3, v3, l3) =
      one_task memset stack_init fuel v2 p.uip.tcb p.uip.name p.uip.fun p.uip.stack stack_uip_size
        29 w2 place.uip.far place.uip.fun place.uip.stack (omega arith) room refl
        (λ h hh. uip_new place h) in
    let (k4, w4, e4, v4, l4) =
      one_task memset stack_init fuel v3 p.first.tcb p.first.name p.first.fun p.first.stack
        stack_size 3 w3 place.first.far place.first.fun place.first.stack (omega arith) room refl
        (λ h hh. first_new place h) in
    let (k5, w5, e5, v5, l5) =
      one_task memset stack_init fuel v4 p.second.tcb p.second.name p.second.fun p.second.stack
        stack_size 4 w4 place.second.far place.second.fun place.second.stack (omega arith) room refl
        (λ h hh. second_new place h) in
    (
      _,
      s4,
      composed memset stack_init fuel p b s place.idle.far e1 x1 x2 x3 x4 e2 e3 e4 e5,
      refl,
      started-Sound size p place k5 v5 (l5 ∙ l4 ∙ l3 ∙ l2 ∙ l1 ∙ lock),
    )
