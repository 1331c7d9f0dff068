-- ===== src/System/Calls.antt =====
-- One call of the kernel: what is kept in common, and `schedule`, `sem_get` and `sem_put`.
use fos.Prelude.{
  ℕ, ◌+◌, ◌-◌, ◌<◌, ◌≤◌, ◌≡◌, ◌≢◌, refl, inl, inr, Bool, true, false, some, List, [], ◌∷◌, ◌++◌,
  arith, ◌==◌, Bool-cases, List-cases, if◌then◌else◌, update, length, ◌∈◌, has, remove, has-append,
  ap, sym, ==_iff, length-remove_lower,
}
pub mod Mutexes
pub mod Messages
pub mod Ticks
pub mod Tasks
use mathlib.Core.Path.{subst}
use fos.MessageQueue.{set_queue}
use fos.LinkedList.{Addr, Links, null}
use fos.LinkedList.Shape.{Lists, Loose}
use fos.PrioMap.{PrioMap}
use fos.Kernel.{Kernel, Port, msg_head, tick_queue}
use fos.Sched.{schedule}
use fos.Sched.Models.{ready, Models, rebase}
use fos.Sched.Fetch.{Highest}
use fos.Sched.Switch.{switch_to, Switches, schedule-Highest}
use fos.Sched.Block.{blocked, woken}
use fos.Semaphore.{set_sem}
use fos.Semaphore.Blocking.{sem_get-free, sem_get-blocks, sem_put-wakes, sem_put-counts}
use fos.MessageQueue.Put.{msg_put-stores, msg_put-wakes, HasRoom, stored}
use fos.MessageQueue.Get.{msg_get-first, msg_get-blocks}
use fos.System.{
  Layout, World, Call, run, Allowed, do_sem_get, do_sem_put, do_msg_put, do_msg_get, do_schedule,
}
use fos.System.Facts.{Facts, Sound, refact}
use fos.System.Facts.Queued.{some-Highest, rotated, blocked-Facts, woken-Facts}
use fos.System.Facts.Short.{Chain-short}
use fos.System.Streams.{Flows, still, flows_on, messages-plain, messages_far}
use fos.System.Units.{
  Balances, level, turned, taken_units, blocked_units, woken_units, counted_units,
}
use fos.System.Steady.{Passes, steady, settled, switched, schedules, IsTop, chosen}
use fos.System.Objects.{taken-Facts, given-Facts, noted-Facts, stored-Facts, fetched-Facts}

-- The processor has gone to the task that is to run.
pub settle :
    {o : Layout} {k : Kernel} {lists : Lists} {q : ℕ} {t : Addr} {ts : List Addr}
    → Facts o k lists
    → Highest lists q t ts
    → (l : Links) (m : PrioMap)
    → Models o.head
        (switch_to t (record k { links = l; map = m }))
        (update lists (q + 1) (ts ++ t ∷ []))
    → Sound o (switch_to t (record k { links = l; map = m })) (update lists (q + 1) (ts ++ t ∷ []))
settle {k} {q} {t} {ts} f h l m v = record {
  models = v;
  running = (
    q,
    h.in_range,
    ground (arith, has-append t ts (t ∷ []), switched t (record k { links = l; map = m })),
  );
  facts = elim (Bool-cases (t == k.new_task)) [
    | inl e ↦ rw e (refact _ (rotated f h (v.statics q h.in_range)) refl refl refl refl refl)
    | inr ne ↦ rw ne (refact _ (rotated f h (v.statics q h.in_range)) refl refl refl refl refl)
  ];
}

-- A call returns and leaves a sound kernel, in which time passes for the tasks that sleep only if the
-- call is a tick.
abbrev pub Kept : World → Layout → Call → Kernel → Lists → Type 0
Kept world o c k lists =
    (k' : Kernel) × (lists' : Lists) × (run world o.size c k ≡ some k')
    × Sound o k' lists'
    × Passes o c k lists k' lists'
    × (schedules c ≡ true → IsTop k' lists')
    × Flows o c k lists lists'
    × Balances o c k lists k' lists'

module _ (world : World) {o : Layout} {k : Kernel} {lists : Lists} (g : Sound o k lists) where
  pub short : (h : Addr) → o.head h ≡ true → length (lists h) < o.size
  short h hh =
      Chain-short k.links h o.size (lists h) (g.models.shape.chain h hh) (g.models.no_null h hh)
        (ground (arith, g.facts.small 32 o.idle (g.models.statics 31 (omega arith)) g.facts.idle))
        (λ a. g.facts.small h a hh)

  pub short_first :
      {q : ℕ} {t : Addr} {ts : List Addr} → Highest lists q t ts → length (t ∷ ts) ≤ o.size
  short_first {q} h =
      omega (arith, short (q + 1) (g.models.statics q h.in_range), ap length h.first)

  -- A task that blocks leaves no ready queue longer, and a task that is woken one longer by one.
  pub short_blocked :
      (p c h : ℕ) {q : ℕ} {t : Addr} {ts : List Addr}
      → tick_queue < h
      → Highest (blocked lists p c h) q t ts
      → length (t ∷ ts) ≤ o.size
  short_blocked p c h {q} far high = ground (
    arith,
    short (q + 1) (g.models.statics q high.in_range),
    ap length high.first,
    high.in_range,
    length-remove_lower c (ready lists p),
  )

  pub short_woken :
      (p w h : ℕ) (ws : List Addr) {q : ℕ} {t : Addr} {ts : List Addr}
      → tick_queue < h
      → Highest (woken lists p w h ws) q t ts
      → length (t ∷ ts) ≤ o.size
  short_woken p w h ws {q} far high =
      ground (
        arith,
        short (q + 1) (g.models.statics q high.in_range),
        ap length high.first,
        high.in_range,
      )

  pub schedule-Kept : Kept world o do_schedule k lists
  unfolding run
  schedule-Kept =
      let (q, t, ts, h) = some-Highest g.facts in
      let (l, m, e, v) =
        schedule-Highest world.port o.size g.models h (short_first h) g.facts.unlocked in
      (
        _,
        _,
        e,
        settle g.facts h l m v,
        settled h g.facts l m (steady refl refl),
        λ yes. chosen h _,
        flows_on h (still (λ a. refl) (λ a. refl) (λ a ha. refl)),
        turned h g.facts (level (λ a. refl) (λ a. refl) refl (λ a ha. refl)) _ refl,
      )

  module _ (s : Addr) (hs : o.sem s ≡ true) where
    head_s : o.head s ≡ true
    head_s = (o.sem_head s hs).0

    far_s : tick_queue < s
    far_s = (o.sem_head s hs).1

    plain_s : o.stores s ≡ false
    plain_s = (o.sem_head s hs).2

    over_s : 32 < s
    over_s = omega (arith, far_s)

    pub sem_get-Kept : k.new_task ≢ o.idle → Kept world o (do_sem_get s) k lists
    unfolding run
    sem_get-Kept ni = elim (Bool-cases ((k.sem s).count == 0)) [
      | inr some_left ↦
          let pos : 0 < (k.sem s).count = ground arith in
          (
            set_sem k s (record (k.sem s) { count = (k.sem s).count - 1 }),
            lists,
            rw (sem_get-free world.port o.size s k (omega (arith, far_s)) pos) refl,
            record {
              models = rebase _ g.models refl refl refl;
              running = g.running;
              facts = taken-Facts g.facts s hs pos;
            },
            steady refl refl,
            λ no. absurd (ground arith),
            still (λ a. refl) (λ a. refl) (λ a ha. refl),
            taken_units s hs pos,
          )
      | inl out ↦
          let zero_left : (k.sem s).count ≡ 0 = (==_iff (k.sem s).count 0).0 out in
          let (p, lt, i) = g.running in
          let hp = g.models.statics p lt in
          let f =
            noted-Facts
              (blocked-Facts g.facts p k.new_task s lt ni far_s head_s hp i (λ z. zero_left)
                plain_s)
              s k.new_task in
          let (q, t, ts, h) = some-Highest f in
          let (l, m, e, v) =
            sem_get-blocks world.port o.size g.models s head_s over_s g.facts.unlocked zero_left lt
              i (short s head_s) h (short_blocked p k.new_task s far_s h) in
          (
            _,
            _,
            rw e refl,
            settle f h l m v,
            settled h f l m (steady refl (ground (arith, lt, far_s))),
            λ yes. chosen h _,
            flows_on h (
                still (λ a. refl) (λ a. refl)
                  (λ a ha.
                    ground (arith, lt, messages-plain o a ha s plain_s, messages_far o a ha))),
            turned h f
                (blocked_units s hs p k.new_task lt
                  (λ a. ground (arith, ap (λ b. (k.sem b).count))))
                _ refl,
          )
    ]

    pub sem_put-Kept : Kept world o (do_sem_put s) k lists
    unfolding run
    sem_put-Kept = elim (List-cases (lists s)) [
      | inr (w, ws, e) ↦
          let p = (k.tcb w).prio in
          let lt = g.models.prios w in
          let f = woken-Facts g.facts p w s ws lt far_s head_s e (g.models.statics p lt) plain_s in
          let (q, t, ts, h) = some-Highest f in
          let (l, m, e', v) =
            sem_put-wakes world.port o.size g.models s head_s over_s g.facts.unlocked e h
              (short_woken p w s ws far_s h) in
          (
            _,
            _,
            rw e' refl,
            settle f h l m v,
            settled h f l m (steady refl (ground (arith, lt, far_s))),
            λ yes. chosen h _,
            flows_on h (
                still (λ a. refl) (λ a. refl)
                  (λ a ha.
                    ground (arith, lt, messages-plain o a ha s plain_s, messages_far o a ha))),
            turned h f (woken_units s hs p w ws lt e) _ refl,
          )
      | inl nobody ↦
          let (q, t, ts, h) = some-Highest g.facts in
          let (l, m, e, v) =
            sem_put-counts world.port o.size g.models s head_s over_s g.facts.unlocked nobody h
              (short_first h) in
          (
            _,
            _,
            rw e refl,
            settle (given-Facts g.facts s hs nobody) h l m v,
            settled h (given-Facts g.facts s hs nobody) l m (steady (ground arith) refl),
            λ yes. chosen h _,
            flows_on h (still (λ a. refl) (λ a. refl) (λ a ha. refl)),
            turned h (given-Facts g.facts s hs nobody) (counted_units s hs) _ refl,
          )
    ]
