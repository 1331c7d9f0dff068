-- ===== src/System/Steady.antt =====
-- What a call does to the tasks that sleep, and to the one that runs.
pub mod Ticked
use fos.Prelude.{
  Bool, ℕ, ◌+◌, ◌<◌, ◌≡◌, ◌≢◌, refl, inl, inr, true, false, List, [], ◌∷◌, ◌++◌, arith, ◌==◌,
  Bool-cases, update, ◌∈◌, has, has-append, ap, ==_iff, ==_ne, sym, ◌∙◌, if◌then◌else◌,
}
use fos.LinkedList.{Addr, Links}
use fos.LinkedList.Shape.{Lists}
use fos.PrioMap.{PrioMap}
use fos.Kernel.{Kernel, Tick, Tcb, tick_queue, delay}
use fos.Sched.Models.{ready}
use fos.Sched.Fetch.{Highest}
use fos.Sched.Switch.{switch_to}
use fos.Timer.Ages.{wakes, stays, aged, kept, sleepers, wake_all, Effect}
use fos.Timer.Interrupt.{ticked, after_tick}
use fos.System.{Layout, Call, do_hardware_timer, do_schedule, do_sem_put, do_mutex_put, do_os_delay}
use fos.System.Facts.{Facts, Sound}
use fos.System.Wakes.{wake_all_old}

-- A task that sleeps goes on to sleep, for as long as before.
pub record Steady (o : Layout) (k : Kernel) (lists : Lists) (k' : Kernel) (lists' : Lists)
    : Type 0 where
  pub stays_asleep :
      (t : Addr)
      → o.task t ≡ true
      → delay t ∈ lists tick_queue
      → (delay t ∈ lists' tick_queue) × ((k'.tick (delay t)).timeout ≡ (k.tick (delay t)).timeout)

-- A task that sleeps is ready if its time is over, and has a tick less to sleep if not.
pub record Older (o : Layout) (k : Kernel) (lists : Lists) (k' : Kernel) (lists' : Lists)
    : Type 0 where
  pub now :
      (t : Addr)
      → o.task t ≡ true
      → delay t ∈ lists tick_queue
      → (k.tick (delay t)).timeout ≡ 0
      → t ∈ ready lists' (k'.tcb t).prio
  pub later :
      (t : Addr)
      → o.task t ≡ true
      → delay t ∈ lists tick_queue
      → (k.tick (delay t)).timeout ≢ 0
      → (delay t ∈ lists' tick_queue)
        × ((k'.tick (delay t)).timeout + 1 ≡ (k.tick (delay t)).timeout)

abbrev pub Passes : Layout → Call → Kernel → Lists → Kernel → Lists → Type 0
Passes o do_hardware_timer k lists k' lists' = Older o k lists k' lists'
Passes o c k lists k' lists' = Steady o k lists k' lists'

switched_tick :
    (t : Addr) (k : Kernel) → ((switch_to t k).tick ≡ k.tick) × ((switch_to t k).tcb ≡ k.tcb)
switched_tick t k = elim (Bool-cases (t == k.new_task)) [
  | inl e ↦ rw e (refl, refl)
  | inr ne ↦ rw ne (refl, refl)
]

-- A call that does not touch the tick queue or an entry.
pub steady :
    {o : Layout} {k : Kernel} {lists : Lists} {k' : Kernel} {lists' : Lists}
    → k'.tick ≡ k.tick
    → lists' tick_queue ≡ lists tick_queue
    → Steady o k lists k' lists'
steady et el = record {
  stays_asleep = λ t ht i. (rw el i, ap (λ (f : Addr → Tick). (f (delay t)).timeout) et);
}

module _ {lists : Lists} {q : ℕ} {t : Addr} {ts : List Addr} (h : Highest lists q t ts) where
  -- The scheduler's choice moves a task within its queue.
  turn_has : (g a : Addr) → a ∈ lists g → a ∈ update lists (q + 1) (ts ++ t ∷ []) g
  turn_has g a i = elim (Bool-cases (g == q + 1)) [
    | inl e ↦ ground (
      arith,
      i,
      e,
      has-append a ts (t ∷ []),
      ap (has a) h.first,
      ap (λ b. has a (lists b)) ((==_iff g (q + 1)).0 e),
    )
    | inr ne ↦ ground (arith, i, ne)
  ]

  pub settled :
      {o : Layout} {k k1 : Kernel} {lists0 : Lists}
      → Facts o k1 lists
      → (l : Links) (m : PrioMap) → Steady o k lists0 k1 lists
      → Steady o k lists0
          (switch_to t (record k1 { links = l; map = m }))
          (update lists (q + 1) (ts ++ t ∷ []))
  settled {k1} f l m s = record {
    stays_asleep = λ u hu i.
        let (j, e) = s.stays_asleep u hu i in
        let (et, ec) = switched_tick t (record k1 { links = l; map = m }) in
        (turn_has tick_queue (delay u) j, ap (λ (f : Addr → Tick). (f (delay u)).timeout) et ∙ e);
  }

  pub settled-Older :
      {o : Layout} {k k1 : Kernel} {lists0 : Lists}
      → Facts o k1 lists
      → Older o k lists0 k1 lists
      → Older o k lists0 (switch_to t k1) (update lists (q + 1) (ts ++ t ∷ []))
  settled-Older {k1} f s =
      let (et, ec) = switched_tick t k1 in
      record {
        now = λ u hu i z. rw ec (turn_has ((k1.tcb u).prio + 1) u (s.now u hu i z));
        later = λ u hu i nz.
            let (j, e) = s.later u hu i nz in
            (
              turn_has tick_queue (delay u) j,
              ap (λ (f : Addr → Tick). (f (delay u)).timeout + 1) et ∙ e,
            );
      }

-- A call that writes the entry `a`, which is no delay of a task that sleeps, and hangs it last.
pub steady_hung :
    {o : Layout} {k : Kernel} {lists : Lists} {k' : Kernel} {lists' : Lists} (a : Addr) (x : Tick)
    → ((t : Addr) → o.task t ≡ true → delay t ∈ lists tick_queue → delay t ≢ a)
    → k'.tick ≡ update k.tick a x
    → lists' tick_queue ≡ lists tick_queue ++ a ∷ []
    → Steady o k lists k' lists'
steady_hung {k} {lists} a x other et el = record {
  stays_asleep = λ t ht i.
      let ne = ==_ne (delay t) a (other t ht i) in
      (
        rw el (ground (arith, i, has-append (delay t) (lists tick_queue) (a ∷ []))),
        ap (λ (f : Addr → Tick). (f (delay t)).timeout) et ∙ ground (arith, ne),
      );
}

-- The task `t` sleeps, and wakes at the tick after `n` more.
pub record Asleep (o : Layout) (t : Addr) (n : ℕ) (k : Kernel) (lists : Lists) : Type 0 where
  pub task : o.task t ≡ true
  pub hangs : delay t ∈ lists tick_queue
  pub left : (k.tick (delay t)).timeout ≡ n

-- The task that hangs its delay on the tick queue is asleep after the scheduler's choice.
pub settled-Asleep :
    {o : Layout} {k1 : Kernel} {lists : Lists} {q : ℕ} {t : Addr} {ts : List Addr} {c : Addr}
    {n : ℕ}
    → Highest lists q t ts
    → Facts o k1 lists
    → Asleep o c n k1 lists
    → (l : Links) (m : PrioMap)
    → Asleep o c n
        (switch_to t (record k1 { links = l; map = m }))
        (update lists (q + 1) (ts ++ t ∷ []))
settled-Asleep {k1} {t} {c} h f a l m =
    let (et, ec) = switched_tick t (record k1 { links = l; map = m }) in
    record {
      task = a.task;
      hangs = turn_has h tick_queue (delay c) a.hangs;
      left = ap (λ (g : Addr → Tick). (g (delay c)).timeout) et ∙ a.left;
    }

-- The running task is ready, and no task of a higher priority is.
abbrev pub IsTop : Kernel → Lists → Type 0
IsTop k lists =
    (p : ℕ) × (p < 32) × (k.new_task ∈ ready lists p) × ((q : ℕ) → q < p → ready lists q ≡ [])

-- The calls that always end with the scheduler's choice.
abbrev pub schedules : Call → Bool
schedules do_schedule = true
schedules (do_sem_put s) = true
schedules (do_mutex_put m) = true
schedules (do_os_delay n) = true
schedules do_hardware_timer = true
schedules c = false

pub switched : (t : Addr) (k : Kernel) → (switch_to t k).new_task ≡ t
switched t k = elim (Bool-cases (t == k.new_task)) [
  | inl e ↦ rw e (sym ((==_iff t k.new_task).0 e))
  | inr ne ↦ rw ne refl
]

pub chosen :
    {lists : Lists} {q : ℕ} {t : Addr} {ts : List Addr}
    → Highest lists q t ts
    → (k : Kernel) → IsTop (switch_to t k) (update lists (q + 1) (ts ++ t ∷ []))
chosen {lists} {q} {t} {ts} h k = (
  q,
  h.in_range,
  ground (arith, has-append t ts (t ∷ []), switched t k),
  λ r lt. ground (arith, h.none_above r lt),
)
