-- ===== src/System/Ticking.antt =====
-- The facts between two calls under the tick interrupt.
use fos.Prelude.{
  ℕ, ◌+◌, ◌-◌, ◌<◌, ◌≤◌, ◌≡◌, inl, inr, true, List, ◌∷◌, arith, ◌==◌, Bool-cases, if◌then◌else◌,
  ltb, length, ◌∈◌, ◌∉◌, has, ap, ==_iff, sym, ◌∙◌, ◌⊎◌,
}
use fos.LinkedList.{Addr, Links, null}
use fos.LinkedList.Shape.{Lists}
use fos.PrioMap.{PrioMap}
use fos.Kernel.{Kernel, Tick, msg_head, tick_queue, delay}
use fos.Sched.Models.{ready}
use fos.Sched.Fetch.{Highest}
use fos.Timer.Ages.{wakes, aged, kept, sleepers, IsNodup, Sleeping, Effect}
use fos.Timer.Interrupt.{ticked, after_tick}
use fos.System.{Layout}
use fos.System.Facts.{Facts, Sound}
use fos.System.Facts.Short.{Chain-IsNodup, append-short}
use fos.System.Wakes.{
  aged-style, wake_all_old, wake_all_at, wake_all_far, length-wake_all, kept_from, sleepers_from,
  length-sleepers, sleepers-IsNodup,
}

module _ {o : Layout} {k : Kernel} {lists : Lists} (g : Sound o k lists) where
  f : Facts o k lists
  f = g.facts

  -- An entry that wakes a task is its delay.
  wakes_own :
      (y : Addr)
      → y ∈ lists tick_queue
      → wakes (k.tick y) ≡ true
      → (o.task (k.tick y).tcb ≡ true) × (y ≡ delay (k.tick y).tcb)
  wakes_own y i w = elim (Bool-cases (o.timer y)) [
    | inl soft ↦ absurd (ground (arith, w, f.timers y soft i))
    | inr hard ↦
        let here : (ltb 0 y ≡ true) × (o.task (y - 1) ≡ true) =
          ground (arith, hard, f.roles tick_queue y o.ticks i) in
        let same : y ≡ delay (y - 1) = ground (arith, here.0) in
        let (st, tc, out) =
          f.naps (y - 1) here.1 (ground (arith, i, ap (λ a. has a (lists tick_queue)) same)) in
        let tcb_same : (k.tick y).tcb ≡ y - 1 = ap (λ a. (k.tick a).tcb) same ∙ tc in
        (ap o.task tcb_same ∙ here.1, same ∙ ap delay (sym tcb_same))
  ]

  -- A task that wakes sleeps, and so is in no list.
  sleeper_lem :
      (c : Addr)
      → c ∈ sleepers k.tick (lists tick_queue)
      → (o.task c ≡ true) × (delay c ∈ lists tick_queue) × (wakes (k.tick (delay c)) ≡ true)
  sleeper_lem c i =
      let (y, j, w, e) = sleepers_from k.tick (lists tick_queue) c i in
      let (t, own) = wakes_own y j w in
      let same : y ≡ delay c = own ∙ ap delay e in
      (
        ground (arith, t, ap o.task e),
        ground (arith, j, ap (λ a. has a (lists tick_queue)) same),
        ground (arith, w, ap (λ a. wakes (k.tick a)) same),
      )

  sleeper_out :
      (c h : Addr) → o.head h ≡ true → c ∈ sleepers k.tick (lists tick_queue) → c ∉ lists h
  sleeper_out c h hh i = let (t, j, w) = sleeper_lem c i in (f.naps c t j).2 h hh

  tick-IsNodup : IsNodup (lists tick_queue)
  tick-IsNodup =
      Chain-IsNodup k.links tick_queue (lists tick_queue) (g.models.shape.chain tick_queue o.ticks)

  pub sleepers-Sleeping : Sleeping o.head lists (sleepers k.tick (lists tick_queue))
  sleepers-Sleeping = record {
    loose = λ c i. record {
      free = λ h hh. sleeper_out c h hh i;
      no_head = (o.task_node c (sleeper_lem c i).0).0;
    };
    not_null = elim (Bool-cases (has null (sleepers k.tick (lists tick_queue)))) [
      | inr out ↦ out
      | inl i ↦ absurd (
          ground
            (arith, o.delay_node null (sleeper_lem null i).0, g.models.statics 0 (omega arith)))
    ];
    nodup = sleepers-IsNodup k.tick (lists tick_queue) tick-IsNodup (λ y i w. (wakes_own y i w).1);
  }

  pub short_tick : (p : ℕ) → p < 32 → length (ready lists p) + length (lists tick_queue) < o.size
  short_tick p lt =
      let hp = g.models.statics p lt in
      append-short o.size (ready lists p) (lists tick_queue)
        (Chain-IsNodup k.links (p + 1) (ready lists p) (g.models.shape.chain (p + 1) hp))
        tick-IsNodup
        (λ a i. elim (Bool-cases (has a (lists tick_queue))) [
          | inr out ↦ out
          | inl j ↦ absurd (omega (arith, g.models.shape.apart (p + 1) tick_queue a hp o.ticks i j))
        ])
        (g.models.no_null (p + 1) hp) (g.models.no_null tick_queue o.ticks)
        (ground (arith, f.small 32 o.idle (g.models.statics 31 (omega arith)) f.idle))
        (λ a. f.small (p + 1) a hp) (λ a. f.small tick_queue a o.ticks)

  pub short_ticked :
      {q : ℕ} {t : Addr} {ts : List Addr}
      → Highest (ticked k lists) q t ts
      → length (t ∷ ts) ≤ o.size
  short_ticked {q} h =
      let cs = sleepers k.tick (lists tick_queue) in
      ground (
        arith,
        short_tick q h.in_range,
        h.in_range,
        ap length h.first,
        length-wake_all k.tcb g.models.prios cs lists (q + 1),
        length-sleepers k.tick (lists tick_queue),
      )

  -- Where a node is after the tick.
  ticked_from :
      (h a : Addr)
      → a ∈ ticked k lists h
      → (a ∈ lists h) ⊎ ((a ∈ sleepers k.tick (lists tick_queue)) × (h ≡ (k.tcb a).prio + 1))
  ticked_from h a i = elim (Bool-cases (has a (lists h))) [
    | inl j ↦ inl j
    | inr out ↦ elim (Bool-cases (h == tick_queue)) [
      | inl e ↦
          let z = (==_iff h tick_queue).0 e in
          absurd (
            ground (
              arith,
              kept_from k.tick (lists tick_queue) a (ground (arith, e, i)),
              out,
              ap (λ b. has a (lists b)) z,
            ))
      | inr ne ↦ inr (
          wake_all_at k.tcb g.models.prios (sleepers k.tick (lists tick_queue)) lists h a
            (ground (arith, ne, i)) out)
    ]
  ]

  pub ticked_far : (h : Addr) → tick_queue < h → ticked k lists h ≡ lists h
  ticked_far h far = ground (
    arith,
    far,
    wake_all_far k.tcb g.models.prios (sleepers k.tick (lists tick_queue)) lists h (omega arith),
  )

  -- A delay that stays keeps its task out of every list.
  nap_stays :
      (t : Addr)
      → o.task t ≡ true
      → delay t ∈ kept k.tick (lists tick_queue)
      → (h : Addr) → o.head h ≡ true
      → t ∉ ticked k lists h
  nap_stays t ht i h hh = elim (Bool-cases (has t (ticked k lists h))) [
    | inr out ↦ out
    | inl j ↦
        let (there, st) = kept_from k.tick (lists tick_queue) (delay t) i in
        absurd (elim (ticked_from h t j) [
          | inl old ↦ ground (arith, old, (f.naps t ht there).2 h hh)
          | inr (woken, e) ↦ ground (arith, (sleeper_lem t woken).2, st)
        ])
  ]

  entry_same :
      (tk : Addr → Tick)
      → ((z : Addr) → tk z ≡ (if has z (lists tick_queue) then aged (k.tick z) else k.tick z))
      → (z : Addr) → z ∈ lists tick_queue
      → ((tk z).style ≡ (k.tick z).style) × ((tk z).tcb ≡ (k.tick z).tcb)
  entry_same tk at z i =
      let e : tk z ≡ aged (k.tick z) = ground (arith, at z, i) in
      let (es, et) = aged-style (k.tick z) in
      (ap (λ (τ : Tick). τ.style) e ∙ es, ap (λ (τ : Tick). τ.tcb) e ∙ et)

  pub ticked-Facts :
      (effect : Effect) (l : Links) (m : PrioMap) (tk : Addr → Tick)
      → ((z : Addr) → tk z ≡ (if has z (lists tick_queue) then aged (k.tick z) else k.tick z))
      → Facts o (after_tick effect k (lists tick_queue) l m tk) (ticked k lists)
  ticked-Facts effect l m tk at = record {
    unlocked = f.unlocked;
    idle =
        wake_all_old k.tcb g.models.prios (sleepers k.tick (lists tick_queue)) lists 32 o.idle
          f.idle;
    small = λ h a hh i. elim (ticked_from h a i) [
      | inl j ↦ f.small h a hh j
      | inr (j, e) ↦ ground (arith, f.small tick_queue (delay a) o.ticks (sleeper_lem a j).1)
    ];
    units = λ s hs u. ticked_far s (o.sem_head s hs).1 ∙ f.units s hs u;
    units_max = f.units_max;
    counted = λ q hq.
        f.counted q hq
        ∙ ap length (sym (ticked_far (msg_head q) (ground (arith, o.queue_head q hq))));
    fits = f.fits;
    roles = λ h a hh i. elim (ticked_from h a i) [
      | inl j ↦ f.roles h a hh j
      | inr (j, e) ↦ ground (arith, e, (sleeper_lem a j).0, g.models.prios a, o.stores_far h)
    ];
    naps = λ t ht i.
        let there = (kept_from k.tick (lists tick_queue) (delay t) i).0 in
        let (st, tc, out) = f.naps t ht there in
        let (es, et) = entry_same tk at (delay t) there in (es ∙ st, et ∙ tc, nap_stays t ht i);
    ceiling = f.ceiling;
    timers = λ a ha i.
        let there = (kept_from k.tick (lists tick_queue) a i).0 in
        (entry_same tk at a there).0 ∙ f.timers a ha there;
  }
