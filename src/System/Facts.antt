-- ===== src/System/Facts.antt =====
-- What holds between two calls, in terms of the lists.
pub mod Queued
pub mod Short
use mathlib.Core.Path.{subst}
use fos.Prelude.{
  ℕ, zero, suc, ◌+◌, ◌*◌, ◌-◌, ◌||◌, ◌&&◌, ltb, ◌<◌, ◌≤◌, ◌≡◌, ◌≢◌, refl, inl, inr, Bool, true,
  false, Option, some, List, [], ◌∷◌, ◌++◌, arith, ◌==◌, Bool-cases, if◌then◌else◌, update, length,
  ◌∈◌, ◌∉◌, has, remove, has-append, has-remove, has-remove_other, is_nil, is_nil-mem, List-cases,
  ap, ◌∙◌, sym, ==_ne, ==_iff,
}
use fos.LinkedList.{Addr, Links, null}
use fos.LinkedList.Shape.{Lists, Loose}
use fos.PrioMap.{PrioMap}
use fos.Kernel.{Kernel, Port, msg_head, tick_queue, delay}
use fos.Timer.{software_timer, delay_style}
use fos.Sched.Models.{ready, Models}
use fos.Sched.Fetch.{Highest}
use fos.Sched.Switch.{switch_to}
use fos.Sched.Block.{blocked, woken}
use fos.System.{Layout, may_hold}

-- A semaphore with a unit left has no task that waits; the count of a queue is the number of its
-- messages, and within its length; the idle task is ready; every node lies in memory, in a list for
-- its kind; a delay on the tick queue is that of a task in no list, and a software timer there is none;
-- and the priority that a mutex notes is in range.
pub record Facts (o : Layout) (k : Kernel) (lists : Lists) : Type 0 where
  pub unlocked : k.schedule_is_lock ≡ false
  pub idle : o.idle ∈ ready lists 31
  pub small : (h a : Addr) → o.head h ≡ true → a ∈ lists h → a < o.size
  pub units : (s : Addr) → o.sem s ≡ true → 0 < (k.sem s).count → lists s ≡ []
  pub units_max : (s : Addr) → o.sem s ≡ true → (k.sem s).count ≤ 0xffffffff
  pub counted : (q : Addr) → o.queue q ≡ true → (k.queue q).count ≡ length (lists (msg_head q))
  pub fits : (q : Addr) → o.queue q ≡ true → (k.queue q).count ≤ (k.queue q).length
  pub roles : (h a : Addr) → o.head h ≡ true → a ∈ lists h → may_hold o h a ≡ true
  pub naps :
      (t : Addr)
      → o.task t ≡ true
      → delay t ∈ lists tick_queue
      → ((k.tick (delay t)).style ≡ delay_style)
        × ((k.tick (delay t)).tcb ≡ t)
        × ((h : Addr) → o.head h ≡ true → t ∉ lists h)
  pub ceiling : (m : Addr) → o.mutex m ≡ true → (k.mutex m).copy_prio < 32
  pub timers :
      (a : Addr) → o.timer a ≡ true → a ∈ lists tick_queue → (k.tick a).style ≡ software_timer

-- The memory holds the lists, the running task is ready, and the facts hold.
pub record Sound (o : Layout) (k : Kernel) (lists : Lists) : Type 0 where
  pub models : Models o.head k lists
  pub running : (p : ℕ) × (p < 32) × (k.new_task ∈ ready lists p)
  pub facts : Facts o k lists

-- Only some of the globals matter.
pub remutex :
    {o : Layout} {k : Kernel} {lists : Lists} (k' : Kernel)
    → Facts o k lists
    → k'.sem ≡ k.sem
    → k'.queue ≡ k.queue
    → k'.schedule_is_lock ≡ k.schedule_is_lock
    → k'.tick ≡ k.tick
    → ((m : Addr) → o.mutex m ≡ true → (k'.mutex m).copy_prio < 32)
    → Facts o k' lists
remutex k' f es eq el et ceiling = record {
  unlocked = el ∙ f.unlocked;
  idle = f.idle;
  small = f.small;
  units = λ s hs. rw es (f.units s hs);
  units_max = λ s hs. rw es (f.units_max s hs);
  counted = λ q hq. rw eq (f.counted q hq);
  fits = λ q hq. rw eq (f.fits q hq);
  roles = f.roles;
  naps = λ t. rw et (f.naps t);
  ceiling = ceiling;
  timers = λ a. rw et (f.timers a);
}

pub refact :
    {o : Layout} {k : Kernel} {lists : Lists} (k' : Kernel)
    → Facts o k lists
    → k'.sem ≡ k.sem
    → k'.queue ≡ k.queue
    → k'.schedule_is_lock ≡ k.schedule_is_lock
    → k'.tick ≡ k.tick
    → k'.mutex ≡ k.mutex
    → Facts o k' lists
refact k' f es eq el et em = remutex k' f es eq el et (λ m hm. rw em (f.ceiling m hm))
