-- ===== src/System/Steady/Ticked.antt =====
-- What a tick does to the tasks that sleep.
use fos.Prelude.{
  ◌+◌, ◌<◌, ◌≡◌, inl, inr, true, List, [], ◌∷◌, ◌++◌, arith, ◌==◌, Bool-cases, update, ◌∈◌, has,
  has-append, ap, ==_iff, ==_ne, if◌then◌else◌,
}
use fos.LinkedList.{Addr, Links}
use fos.LinkedList.Shape.{Lists}
use fos.PrioMap.{PrioMap}
use fos.Kernel.{Kernel, Tick, Tcb, tick_queue, delay}
use fos.Sched.Models.{ready}
use fos.Timer.Ages.{wakes, stays, aged, kept, sleepers, wake_all, Effect}
use fos.Timer.Interrupt.{ticked, after_tick}
use fos.System.{Layout}
use fos.System.Facts.{Sound}
use fos.System.Wakes.{wake_all_old}
use fos.System.Steady.{Older}

module _ (tick : Addr → Tick) where
  kept_stays : (ys : List Addr) (y : Addr) → y ∈ ys → stays (tick y) ≡ true → y ∈ kept tick ys
  unfolding kept
  kept_stays [] y i s = absurd (ground arith)
  kept_stays (x ∷ xs) y i s = elim (Bool-cases (y == x)) [
    | inl e ↦ ground (arith, e, s, ap (λ a. stays (tick a)) ((==_iff y x).0 e))
    | inr ne ↦ ground (arith, i, ne, kept_stays xs y (ground (arith, i, ne)) s)
  ]

  sleepers_wakes :
      (ys : List Addr) (y : Addr) → y ∈ ys → wakes (tick y) ≡ true → (tick y).tcb ∈ sleepers tick ys
  unfolding sleepers
  sleepers_wakes [] y i w = absurd (ground arith)
  sleepers_wakes (x ∷ xs) y i w = elim (Bool-cases (y == x)) [
    | inl e ↦
        let z = (==_iff y x).0 e in
        ground (arith, w, ap (λ a. wakes (tick a)) z, ap (λ a. (tick a).tcb) z)
    | inr ne ↦ ground (arith, sleepers_wakes xs y (ground (arith, i, ne)) w)
  ]

-- A task that is woken is ready.
wake_all_ready :
    (tcb : Addr → Tcb)
    → ((t : Addr) → (tcb t).prio < 32)
    → (cs : List Addr) (lists : Lists) (c : Addr) → c ∈ cs
    → c ∈ wake_all tcb cs lists ((tcb c).prio + 1)
unfolding wake_all
wake_all_ready tcb lt [] lists c i = absurd (ground arith)
wake_all_ready tcb lt (x ∷ xs) lists c i =
    let p = (tcb x).prio in
    let lists1 = update lists (p + 1) (ready lists p ++ x ∷ []) in
    elim (Bool-cases (c == x)) [
      | inr ne ↦ wake_all_ready tcb lt xs lists1 c (ground (arith, i, ne))
      | inl e ↦
          let z = (==_iff c x).0 e in
          wake_all_old tcb lt xs lists1 ((tcb c).prio + 1) c
            (ground (arith, e, ap (λ a. (tcb a).prio) z, has-append c (ready lists p) (x ∷ [])))
    ]

-- A tick wakes the tasks whose time is over, and brings the others nearer.
pub ticked-Older :
    {o : Layout} {k : Kernel} {lists : Lists}
    → Sound o k lists
    → (effect : Effect) (l : Links) (m : PrioMap) (tk : Addr → Tick)
    → ((z : Addr) → tk z ≡ (if has z (lists tick_queue) then aged (k.tick z) else k.tick z))
    → Older o k lists (after_tick effect k (lists tick_queue) l m tk) (ticked k lists)
ticked-Older {k} {lists} g effect l m tk at = record {
  now = λ t ht i z.
      let (st, tc, out) = g.facts.naps t ht i in
      let w : wakes (k.tick (delay t)) ≡ true = ground (arith, z, st) in
      let j : t ∈ sleepers k.tick (lists tick_queue) = ground (
        arith,
        sleepers_wakes k.tick (lists tick_queue) (delay t) i w,
        ap (λ a. has a (sleepers k.tick (lists tick_queue))) tc,
      ) in
      ground (
        arith,
        wake_all_ready k.tcb g.models.prios (sleepers k.tick (lists tick_queue)) lists t j,
        g.models.prios t,
      );
  later = λ t ht i nz.
      let st : stays (k.tick (delay t)) ≡ true =
        ground (arith, ==_ne (k.tick (delay t)).timeout 0 nz) in
      (
        ground (arith, kept_stays k.tick (lists tick_queue) (delay t) i st),
        ground (
          arith,
          ap (λ (τ : Tick). τ.timeout) (at (delay t)),
          i,
          ==_ne (k.tick (delay t)).timeout 0 nz,
        ),
      );
}
