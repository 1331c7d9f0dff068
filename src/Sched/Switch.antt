-- ===== src/Sched/Switch.antt =====
-- `schedule` of kernel/prio_sched.c as a whole: the context switch.
use fos.Prelude.{
  ℕ, ◌+◌, ◌≤◌, ◌≡◌, refl, Bool, true, false, Option, some, List, ◌∷◌, [], ◌++◌, arith, ◌==◌,
  if◌then◌else◌, update, length, Bool-cases, inl, inr,
}
use fos.LinkedList.{Addr, Links}
use fos.LinkedList.Shape.{Lists}
use fos.PrioMap.{PrioMap}
use fos.Kernel.{Kernel, Port}
use fos.Sched.{schedule}
use fos.Sched.Models.{Models, rebase}
use fos.Sched.Fetch.{Highest, fetch_lem}

-- The processor runs task `t`: nothing changes if it did already.
abbrev pub switch_to : Addr → Kernel → Kernel
switch_to t k =
    if t == k.new_task
    then k
    else record k { old_task = k.new_task; new_task = t; context = (k.tcb t).stack_ptr }

-- A call returns `r` and leaves `k`, but for list nodes and the map, with the processor on task `t`
-- and the lists `lists`.
abbrev pub Switches : (Addr → Bool) → Option (ℕ × Kernel) → ℕ → Addr → Kernel → Lists → Type 0
Switches head o r t k lists =
    (l : Links) × (m : PrioMap) × (o ≡ some (r, switch_to t (record k { links = l; map = m })))
    × Models head (switch_to t (record k { links = l; map = m })) lists

pub switch-rebase :
    {head : Addr → Bool} {k : Kernel} {lists : Lists} (t : Addr)
    → Models head k lists
    → Models head (switch_to t k) lists
switch-rebase {k} t v = elim (Bool-cases (t == k.new_task)) [
  | inl e ↦ rw e v
  | inr e ↦ rw e (rebase _ v refl refl refl)
]

-- A locked scheduler does nothing.
pub schedule_locked :
    (port : Port) (fuel : ℕ) (k : Kernel)
    → k.schedule_is_lock ≡ true
    → schedule port fuel k ≡ some k
unfolding schedule
schedule_locked port fuel k e = rw e

-- The same with the lists before the processor changes its task, as other operations want it.
pub schedule_raw :
    (port : Port) (fuel : ℕ) {head : Addr → Bool} {k : Kernel} {lists : Lists} {p : ℕ} {t : Addr}
    {ts : List Addr}
    → Models head k lists
    → Highest lists p t ts
    → length (t ∷ ts) ≤ fuel
    → k.schedule_is_lock ≡ false
    → (l : Links) × (m : PrioMap) × (schedule port fuel k
        ≡ some (switch_to t (record k { links = l; map = m })))
      × Models head (record k { links = l; map = m }) (update lists (p + 1) (ts ++ t ∷ []))
unfolding schedule
schedule_raw port fuel {head} {k} {t} v h room e =
    let k0 : Kernel = record k { sr = (port.interrupt_disable k.sr).1 } in
    let ((l, m, e1, v1), e2) = fetch_lem (rebase k0 v refl refl refl) h fuel room in
    (l, m, ground (arith, e, e2, e1, port.restores k.sr), rebase _ v1 refl refl refl)

-- An unlocked scheduler switches to the first task of the highest ready priority, moves it behind
-- the other tasks of that priority, keeps every other list, and leaves the interrupt state as it was.
pub schedule-Highest :
    (port : Port) (fuel : ℕ) {head : Addr → Bool} {k : Kernel} {lists : Lists} {p : ℕ} {t : Addr}
    {ts : List Addr}
    → Models head k lists
    → Highest lists p t ts
    → length (t ∷ ts) ≤ fuel
    → k.schedule_is_lock ≡ false
    → (l : Links) × (m : PrioMap) × (schedule port fuel k
        ≡ some (switch_to t (record k { links = l; map = m })))
      × Models head
          (switch_to t (record k { links = l; map = m }))
          (update lists (p + 1) (ts ++ t ∷ []))
schedule-Highest port fuel {t} v h room e =
    let (l, m, e1, v1) = schedule_raw port fuel v h room e in (l, m, e1, switch-rebase t v1)
