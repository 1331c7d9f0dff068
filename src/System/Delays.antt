-- ===== src/System/Delays.antt =====
-- How long a task sleeps over a whole run.
use mathlib.Core.Path.{subst}
use fos.Prelude.{ℕ, ◌+◌, ◌-◌, ◌≤◌, ◌≡◌, ◌≢◌, sym, ap, ◌∙◌, arith, some, List, [], ◌∷◌, ◌∈◌, has}
use fos.LinkedList.{Addr}
use fos.LinkedList.Shape.{Lists}
use fos.Kernel.{Kernel}
use fos.Sched.Models.{ready}
use fos.System.{Layout, World, Call, run, do_os_delay, do_hardware_timer, Runs, start, call}
use fos.System.Facts.{Sound}
use fos.System.Steady.{Passes, Asleep}
use fos.System.Calls.Ticks.{os_delay-Asleep, hardware_timer-Kept}
use fos.System.Safety.{call-Sound, some_same}

-- The ticks among the calls.
abbrev tick_of : Call → ℕ
tick_of do_hardware_timer = 1
tick_of c = 0

abbrev pub ticks : List Call → ℕ
ticks [] = 0
ticks (c ∷ cs) = tick_of c + ticks cs

passes_lem :
    {o : Layout} {k k' : Kernel} {lists lists' : Lists} {t : Addr} {n : ℕ} (c : Call)
    → Passes o c k lists k' lists'
    → Asleep o t n k lists
    → tick_of c ≤ n
    → Asleep o t (n - tick_of c) k' lists'
passes_lem {t} do_hardware_timer s a le =
    let (j, e) = s.later t a.task a.hangs (λ z. omega (arith, a.left, z)) in
    record { task = a.task; hangs = j; left = omega (arith, e, a.left) }
passes_lem {t} c s a le =
    let (j, e) = s.stays_asleep t a.task a.hangs in
    record { task = a.task; hangs = j; left = omega (arith, e, a.left) }

-- A task that sleeps goes on to sleep until its ticks have come.
Runs-Asleep :
    (world : World) {o : Layout} {k0 k : Kernel} {lists0 : Lists} {cs : List Call} {t : Addr}
    {n : ℕ}
    → Sound o k0 lists0
    → Asleep o t n k0 lists0
    → Runs world o k0 cs k
    → ticks cs ≤ n
    → (lists : Lists) × Sound o k lists × Asleep o t (n - ticks cs) k lists
Runs-Asleep world {o} {k0} {lists0} {t} {n} g a start le =
    let same : n ≡ n - 0 = omega arith in
    (lists0, g, subst (λ (i : ℕ). Asleep o t i k0 lists0) same a)
Runs-Asleep world {o} {k = k'} {t} {n} g a (call {cs = cs'} r c allowed e) le =
    let (lists, g1, a1) = Runs-Asleep world g a r (ground (arith, le)) in
    let (lists', g', s, top, flows, units) = call-Sound world g1 c (allowed lists g1.models) e in
    let same : n - ticks cs' - tick_of c ≡ n - ticks (c ∷ cs') = omega arith in
    (
      lists',
      g',
      subst (λ (i : ℕ). Asleep o t i k' lists') same (passes_lem c s a1 (omega (arith, le))),
    )

module _ (world : World) {o : Layout} {k0 k1 k : Kernel} {lists0 : Lists} {cs : List Call} (n : ℕ)
    (g : Sound o k0 lists0) (ni : k0.new_task ≢ o.idle)
    (e : run world o.size (do_os_delay n) k0 ≡ some k1) (r : Runs world o k1 cs k) where
  delayed :
      ticks cs ≤ n → (lists : Lists) × Sound o k lists × Asleep o k0.new_task (n - ticks cs) k lists
  unfolding run
  delayed le =
      let (k', lists', e', g', s, a, top, flows, units) = os_delay-Asleep world g n ni in
      let same : k' ≡ k1 = some_same (sym e' ∙ e) in
      Runs-Asleep world (subst (λ (x : Kernel). Sound o x lists') same g')
        (subst (λ (x : Kernel). Asleep o k0.new_task n x lists') same a) r le

  -- A task that calls `os_delay n` does not run again before more than `n` ticks have come, whatever
  -- else is called.
  pub Runs-sleeps : ticks cs ≤ n → k.new_task ≢ k0.new_task
  Runs-sleeps le z =
      let (lists, g', a) = delayed le in
      let (p, lt, i) = g'.running in
      let out = (g'.facts.naps k0.new_task a.task a.hangs).2 (p + 1) (g'.models.statics p lt) in
      absurd (ground (arith, out, i, ap (λ t. has t (ready lists p)) z))

  -- After `n` ticks, whatever else is called, the next tick makes the task that called `os_delay n`
  -- ready.
  pub Runs-wakes :
      ticks cs ≡ n
      → (k' : Kernel) × (lists : Lists) × (run world o.size do_hardware_timer k ≡ some k')
        × Sound o k' lists
        × (k0.new_task ∈ ready lists (k'.tcb k0.new_task).prio)
  Runs-wakes all =
      let (lists, g', a) = delayed (omega (arith, all)) in
      let (k', lists', e', g1, s, top, flows, units) = hardware_timer-Kept world g' in
      (k', lists', e', g1, s.now k0.new_task a.task a.hangs (omega (arith, a.left, all)))
