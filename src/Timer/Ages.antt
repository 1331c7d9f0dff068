-- ===== src/Timer/Ages.antt =====
-- What a tick does to the entries of the tick queue, in the words of `hardware_timer` of
-- kernel/timer.c, but entry by entry and with no list in memory.
use fos.Prelude.{
  ℕ, ◌+◌, ◌-◌, Bool, List, [], ◌∷◌, ◌++◌, not, ◌&&◌, ◌==◌, if◌then◌else◌, update, ◌∈◌, ◌∉◌,
}
use fos.LinkedList.{Addr, null}
use fos.LinkedList.Shape.{Lists, Loose}
use fos.Kernel.{Tick, Tcb, Msg}
use fos.Sched.Models.{ready}
use fos.Timer.{software_timer, cycle, delay_style}

-- A software timer whose time is over runs its callback.
abbrev pub fires : Tick → Bool
fires τ = τ.timeout == 0 && τ.style == software_timer

-- A delay whose time is over wakes its task.
abbrev pub wakes : Tick → Bool
wakes τ = τ.timeout == 0 && τ.style == delay_style

-- An entry leaves the queue if it wakes a task, or fires and does not cycle.
abbrev pub stays : Tick → Bool
stays τ = not (wakes τ) && not (fires τ && not (τ.period == cycle))

-- The entry after the tick.
abbrev pub aged : Tick → Tick
aged τ =
    if τ.timeout == 0
    then (if fires τ && τ.period == cycle then record τ { timeout = τ.timeout_copy } else τ)
    else record τ { timeout = τ.timeout - 1 }

-- The entries that stay, in their order.
unfoldable pub kept : (Addr → Tick) → List Addr → List Addr
kept tick [] = []
kept tick (y ∷ ys) = if stays (tick y) then y ∷ kept tick ys else kept tick ys

-- The tasks that are woken, in the order of their entries.
unfoldable pub sleepers : (Addr → Tick) → List Addr → List Addr
sleepers tick [] = []
sleepers tick (y ∷ ys) =
    if wakes (tick y) then (tick y).tcb ∷ sleepers tick ys else sleepers tick ys

-- The message memory after the callbacks, each with its effect, in the order of their entries.
abbrev pub Effect : Type 0
Effect = ℕ → ℕ → (Addr → Msg) → Addr → Msg

unfoldable pub fire : Effect → (Addr → Tick) → List Addr → (Addr → Msg) → Addr → Msg
fire effect tick [] msg = msg
fire effect tick (y ∷ ys) msg =
    fire effect tick ys (if fires (tick y) then effect (tick y).func (tick y).func_arg msg else msg)

-- The lists after tasks have gone, one after another, to the end of the queue of their priority.
unfoldable pub wake_all : (Addr → Tcb) → List Addr → Lists → Lists
wake_all tcb [] lists = lists
wake_all tcb (c ∷ cs) lists =
    let p = (tcb c).prio in wake_all tcb cs (update lists (p + 1) (ready lists p ++ c ∷ []))

abbrev pub IsNodup : List Addr → Type 0
IsNodup [] = Unit
IsNodup (x ∷ xs) = (x ∉ xs) × IsNodup xs

-- The tasks that the entries wake are in no list, and each sleeps on one entry only.
pub record Sleeping (head : Addr → Bool) (lists : Lists) (tasks : List Addr) : Type 0 where
  pub loose : (c : Addr) → c ∈ tasks → Loose head lists c
  pub not_null : null ∉ tasks
  pub nodup : IsNodup tasks
