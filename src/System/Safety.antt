-- ===== src/System/Safety.antt =====
-- The invariant over whole runs of the kernel.
use mathlib.Core.Path.{subst}
use fos.Prelude.{
  ◌∈◌, has, ltb, Bool-cases, inl, inr, ℕ, ◌<◌, ◌≤◌, ◌≡◌, ◌^◌, ◌==◌, arith, refl, true, Option, none,
  some, List, [], ◌∷◌, length, ap, sym, ◌∙◌, is_nil,
}
use fos.LinkedList.{Addr, is_list_last}
use fos.LinkedList.Shape.{Lists, is_list_last-is_nil}
use fos.Kernel.{Kernel, msg_head}
use fos.Sched.Models.{ready, Models}
use fos.System.{
  Layout, World, Call, run, Allowed, do_sem_get, do_sem_put, do_mutex_get, do_mutex_put, do_msg_put,
  do_msg_get, do_schedule, do_timer_req, do_os_delay, do_hardware_timer, do_task_prio_change,
  do_task_create, Runs, start, call,
}
use fos.System.Facts.{Sound}
use fos.System.Streams.{Flows}
use fos.System.Units.{Balances}
use fos.System.Steady.{Passes, schedules, IsTop}
use fos.System.Calls.{Kept, schedule-Kept, sem_get-Kept, sem_put-Kept}
use fos.System.Calls.Ticks.{timer_req-Kept, os_delay-Kept, hardware_timer-Kept}
use fos.System.Calls.Mutexes.{mutex_get-Kept, mutex_put-Kept}
use fos.System.Calls.Tasks.{task_prio_change-Kept, task_create-Kept}
use fos.System.Calls.Messages.{msg_put-Kept}
use fos.System.Calls.Messages.Get.{msg_get-Kept}

run-Kept :
    (world : World) {o : Layout} {k : Kernel} {lists : Lists}
    → Sound o k lists
    → (c : Call) → Allowed o c k lists
    → Kept world o c k lists
run-Kept world g (do_sem_get s) (hs, ni) = sem_get-Kept world g s hs ni
run-Kept world g (do_sem_put s) hs = sem_put-Kept world g s hs
run-Kept world g (do_mutex_get m) (hm, ni) = mutex_get-Kept world g m hm ni
run-Kept world g (do_mutex_put m) (hm, ni) = mutex_put-Kept world g m hm ni
run-Kept world g (do_msg_put q msg method) (hq, loose, ne, lt, kind) =
    msg_put-Kept world g q hq msg method loose ne lt kind
run-Kept world g (do_msg_get q buffer) (hq, nb, ni) = msg_get-Kept world g q hq buffer nb ni
run-Kept world g do_schedule a = schedule-Kept world g
run-Kept world g (do_timer_req timer func timeout period arg) (kind, loose, ne, lt, nf, nz) =
    timer_req-Kept world g timer func timeout period arg kind loose ne lt nf nz
run-Kept world g (do_os_delay timeslice) ni = os_delay-Kept world g timeslice ni
run-Kept world g do_hardware_timer a = hardware_timer-Kept world g
run-Kept world {o} {k} {lists} g (do_task_prio_change tcb prio) (np, self, ni) =
    subst (λ (t : Addr). Kept world o (do_task_prio_change t prio) k lists) (sym self)
      (task_prio_change-Kept world g prio np ni)
run-Kept world g (do_task_create tcb name fun arg stack stack_size prio state mem)
      (ht, loose, awake, nt, nf, ns, lt) =
    task_create-Kept world g tcb name fun arg stack stack_size prio state mem ht loose awake nt nf
      ns lt

length_zero : (xs : List Addr) → (length xs == 0) ≡ is_nil xs
length_zero [] = refl
length_zero (x ∷ xs) = ground arith

get_or_kernel : Kernel → Option Kernel → Kernel
get_or_kernel d none = d
get_or_kernel d (some k) = k

pub some_same : {a b : Kernel} → some a ≡ some b → a ≡ b
unfolding get_or_kernel
some_same {a} e = ap (get_or_kernel a) e

-- Where a call leads.
pub call-Sound :
    (world : World) {o : Layout} {k k' : Kernel} {lists : Lists}
    → Sound o k lists
    → (c : Call) → Allowed o c k lists
    → run world o.size c k ≡ some k'
    → (lists' : Lists) × Sound o k' lists'
      × Passes o c k lists k' lists'
      × (schedules c ≡ true → IsTop k' lists')
      × Flows o c k lists lists'
      × Balances o c k lists k' lists'
call-Sound world {o} {k} {lists} g c allowed e =
    let (k1, lists', e', g', older, top, flows, units) = run-Kept world g c allowed in
    let same = some_same (sym e' ∙ e) in
    (
      lists',
      subst (λ (x : Kernel). Sound o x lists') same g',
      subst (λ (x : Kernel). Passes o c k lists x lists') same older,
      subst (λ (x : Kernel). schedules c ≡ true → IsTop x lists') same top,
      flows,
      subst (λ (x : Kernel). Balances o c k lists x lists') same units,
    )

-- From a sound kernel, calls that keep to what a caller must, however many and in whatever order,
-- leave a sound kernel.
pub Runs-Sound :
    (world : World) {o : Layout} {k0 k : Kernel} {lists0 : Lists} {cs : List Call}
    → Sound o k0 lists0
    → Runs world o k0 cs k
    → (lists : Lists) × Sound o k lists
Runs-Sound world {lists0} g start = (lists0, g)
Runs-Sound world g (call r c allowed e) =
    let (lists, g1) = Runs-Sound world g r in
    let (lists', g', older, top, flows, units) =
      call-Sound world g1 c (allowed lists g1.models) e in
    (lists', g')

-- Whatever has run before from a sound kernel, the next call that keeps to what a caller must
-- returns: no assertion fails, no walk along a list is cut short, and no priority is out of range.
pub Runs-returns :
    (world : World) {o : Layout} {k0 k : Kernel} {lists0 : Lists} {cs : List Call}
    → Sound o k0 lists0
    → Runs world o k0 cs k
    → (c : Call) → ((lists : Lists) → Models o.head k lists → Allowed o c k lists)
    → (k' : Kernel) × (run world o.size c k ≡ some k')
Runs-returns world g r c allowed =
    let (lists, g1) = Runs-Sound world g r in
    let (k', lists', e, g', older, top, flows, units) =
      run-Kept world g1 c (allowed lists g1.models) in
    (k', e)

-- Whatever has run from a sound kernel, a semaphore with a unit left has an empty list of waiting
-- tasks.
pub Runs-units :
    (world : World) {o : Layout} {k0 k : Kernel} {lists0 : Lists} {cs : List Call}
    → Sound o k0 lists0
    → Runs world o k0 cs k
    → (s : Addr) → o.sem s ≡ true
    → 0 < (k.sem s).count
    → is_list_last k.links s ≡ true
Runs-units world {o} g r s hs pos =
    let (lists, g1) = Runs-Sound world g r in
    is_list_last-is_nil g1.models.shape s (o.sem_head s hs).0 ∙ ap is_nil (g1.facts.units s hs pos)

-- Whatever has run from a sound kernel, the count of a semaphore fits in 32 bits, and the count of a
-- queue is within its length and is zero exactly if its list of messages is empty.
pub Runs-counts :
    (world : World) {o : Layout} {k0 k : Kernel} {lists0 : Lists} {cs : List Call}
    → Sound o k0 lists0
    → Runs world o k0 cs k
    → ((s : Addr) → o.sem s ≡ true → (k.sem s).count < 2 ^ 32)
      × ((q : Addr)
          → o.queue q ≡ true
          → ((k.queue q).count ≤ (k.queue q).length)
            × (((k.queue q).count == 0) ≡ is_list_last k.links (msg_head q)))
Runs-counts world {o} g r =
    let (lists, g1) = Runs-Sound world g r in
    (
      λ s hs. ground (arith, g1.facts.units_max s hs),
      λ q hq. (
        g1.facts.fits q hq,
        ground (
          arith,
          g1.facts.counted q hq,
          is_list_last-is_nil g1.models.shape (msg_head q) (o.queue_head q hq).1,
          length_zero (lists (msg_head q)),
        ),
      ),
    )

-- Whatever has run from a sound kernel, after a tick, a call of `schedule`, `sem_put`, `mutex_put` or
-- `os_delay` the running task is ready, and no task of a higher priority is.
pub Runs-IsTop :
    (world : World) {o : Layout} {k0 k : Kernel} {lists0 : Lists} {c : Call} {cs : List Call}
    → Sound o k0 lists0
    → Runs world o k0 (c ∷ cs) k
    → schedules c ≡ true
    → (lists : Lists) × Models o.head k lists
      × (k.new_task ∈ ready lists (k.tcb k.new_task).prio)
      × ((p : ℕ) (t : Addr) → p < 32 → t ∈ ready lists p → (k.tcb k.new_task).prio ≤ p)
Runs-IsTop world {k} g (call r c allowed e) choice =
    let (lists, g1) = Runs-Sound world g r in
    let (lists', g', older, top, flows, units) =
      call-Sound world g1 c (allowed lists g1.models) e in
    let (p, lt, i, above) = top choice in
    let same = g'.models.queued p k.new_task lt i in
    (
      lists',
      g'.models,
      rw same i,
      λ r t lr j. elim (Bool-cases (ltb r p)) [
        | inl lo ↦ absurd (ground (arith, j, ap (has t) (above r (ground (arith, lo)))))
        | inr hi ↦ ground (arith, hi, same)
      ],
    )
