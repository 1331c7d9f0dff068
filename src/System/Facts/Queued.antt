-- ===== src/System/Facts/Queued.antt =====
-- The facts after the running task is moved, blocked or joined by a woken one.
use mathlib.Core.Path.{subst}
use fos.Prelude.{
  ℕ, zero, suc, ◌+◌, ◌<◌, ◌≡◌, ◌≢◌, refl, inl, inr, true, false, List, [], ◌∷◌, ◌++◌, arith, ◌==◌,
  Bool-cases, update, ◌∈◌, has, has-append, has-remove, has-remove_other, is_nil, is_nil-mem,
  List-cases, ap, ◌∙◌, sym, ==_ne, ==_iff,
}
use fos.LinkedList.{Addr}
use fos.LinkedList.Shape.{Lists}
use fos.Kernel.{Kernel, msg_head, tick_queue}
use fos.Sched.Models.{ready}
use fos.Sched.Fetch.{Highest}
use fos.Sched.Block.{blocked, woken}
use fos.System.{Layout}
use fos.System.Facts.{Facts}

-- Some task is the one to run, since the idle task is ready.
search-Highest :
    (lists : Lists) (n p : ℕ)
    → p + n ≡ 31
    → ((q : ℕ) → q < p → ready lists q ≡ [])
    → is_nil (ready lists 31) ≡ false
    → (q : ℕ) × (t : Addr) × (ts : List Addr) × Highest lists q t ts
search-Highest lists zero p e above last = elim (List-cases (ready lists p)) [
  | inr (t, ts, first) ↦
      (p, t, ts, record { in_range = omega arith; first = first; none_above = above })
  | inl none ↦ absurd (ground (arith, ap (λ i. is_nil (ready lists i)) e, ap is_nil none))
]
search-Highest lists (suc n) p e above last = elim (List-cases (ready lists p)) [
  | inr (t, ts, first) ↦
      (p, t, ts, record { in_range = omega arith; first = first; none_above = above })
  | inl none ↦
      search-Highest lists n (p + 1) (omega arith)
        (λ q lt. elim (Bool-cases (q == p)) [
          | inl same ↦ ap (ready lists) ((==_iff q p).0 same) ∙ none
          | inr other ↦ above q (ground arith)
        ])
        last
]

module _ {o : Layout} {k : Kernel} {lists : Lists} (f : Facts o k lists) where
  pub some-Highest : (q : ℕ) × (t : Addr) × (ts : List Addr) × Highest lists q t ts
  some-Highest =
      search-Highest lists 31 0 refl (λ q lt. absurd (omega arith))
        (is_nil-mem o.idle (ready lists 31) f.idle)

  -- The task at hand goes behind its equals.
  pub rotated :
      {q : ℕ} {t : Addr} {ts : List Addr}
      → Highest lists q t ts
      → o.head (q + 1) ≡ true
      → Facts o k (update lists (q + 1) (ts ++ t ∷ []))
  rotated {q} {t} {ts} h hq =
      let same : (a : Addr) → has a (ts ++ t ∷ []) ≡ has a (ready lists q) =
        λ a. ground (arith, has-append a ts (t ∷ []), ap (has a) h.first) in
      record {
        unlocked = f.unlocked;
        idle = ground (arith, same o.idle, f.idle);
        small = λ g a hg i. ground (arith, same a, f.small g a hg, f.small (q + 1) a hq);
        units = λ s hs u. ground (arith, o.sem_head s hs, h.in_range, f.units s hs u);
        units_max = f.units_max;
        counted = λ r hr. ground (arith, o.queue_head r hr, h.in_range, f.counted r hr);
        fits = f.fits;
        roles = λ g a hg i. ground (arith, same a, f.roles g a hg, f.roles (q + 1) a hq);
        naps = λ u hu i.
            let (st, tc, out) = f.naps u hu (ground (arith, i, h.in_range)) in
            (st, tc, λ g hg. ground (arith, out g hg, out (q + 1) hq, same u));
        ceiling = f.ceiling;
        timers = λ a ha i. f.timers a ha (ground (arith, i, h.in_range));
      }

  -- The running task blocks on a list that holds no messages; on a semaphore, because it is used up.
  pub blocked-Facts :
      (p : ℕ) (c h : Addr)
      → p < 32
      → c ≢ o.idle
      → tick_queue < h
      → o.head h ≡ true
      → o.head (p + 1) ≡ true
      → c ∈ ready lists p
      → (o.sem h ≡ true → (k.sem h).count ≡ 0)
      → o.stores h ≡ false
      → Facts o k (blocked lists p c h)
  blocked-Facts p c h lt ni far hh hp i zero_left plain = record {
    unlocked = f.unlocked;
    idle = ground (
      arith,
      f.idle,
      has-remove_other c o.idle (ready lists p),
      ==_ne o.idle c (λ e. ni (sym e)),
    );
    small = λ g a hg j. ground (
      arith,
      f.small g a hg,
      f.small h a hh,
      f.small (p + 1) a hp,
      has-append a (lists h) (c ∷ []),
      has-remove c a (ready lists p),
      f.small (p + 1) c hp i,
      (==_iff a c).0,
    );
    units = λ s hs u. elim (Bool-cases (s == h)) [
      | inl e ↦
          let z = (==_iff s h).0 e in
          absurd (
            omega
              (arith, zero_left (subst (λ a. o.sem a ≡ true) z hs), ap (λ a. (k.sem a).count) z))
      | inr ne ↦ ground (arith, ne, o.sem_head s hs, f.units s hs u)
    ];
    units_max = f.units_max;
    counted = λ r hr. ground (
      arith,
      f.counted r hr,
      ==_ne (msg_head r) h (λ e. ground (arith, ap o.stores e, plain, o.queue_head r hr)),
      o.queue_head r hr,
    );
    fits = f.fits;
    roles = λ g a hg j. ground (
      arith,
      f.roles g a hg,
      f.roles h a hh,
      f.roles (p + 1) a hp,
      has-append a (lists h) (c ∷ []),
      has-remove c a (ready lists p),
      f.roles (p + 1) c hp i,
      (==_iff a c).0,
      ap o.task,
      o.stores_far (p + 1),
      plain,
    );
    naps = λ t ht j.
        let (st, tc, out) = f.naps t ht (ground (arith, j)) in
        let other : (t == c) ≡ false =
          ==_ne t c (λ e. ground (arith, out (p + 1) hp, ap (λ a. has a (ready lists p)) e)) in
        (
          st,
          tc,
          λ g hg. ground (
            arith,
            out g hg,
            out h hh,
            out (p + 1) hp,
            has-remove c t (ready lists p),
            has-append t (lists h) (c ∷ []),
            other,
          ),
        );
    ceiling = f.ceiling;
    timers = λ a ha j. f.timers a ha (ground (arith, j));
  }

  -- The first task that waits on a list goes to the front of its ready queue.
  pub woken-Facts :
      (p : ℕ) (w h : Addr) (ws : List Addr)
      → p < 32
      → tick_queue < h
      → o.head h ≡ true
      → lists h ≡ w ∷ ws
      → o.head (p + 1) ≡ true
      → o.stores h ≡ false
      → Facts o k (woken lists p w h ws)
  woken-Facts p w h ws lt far hh e hp plain =
      let here : w ∈ lists h = rw e (ground arith) in
      record {
        unlocked = f.unlocked;
        idle = ground (arith, f.idle);
        small = λ g a hg j.
            ground (arith, f.small g a hg, f.small h a hh, f.small (p + 1) a hp, ap (has a) e);
        units = λ s hs u.
            ground
              (arith, f.units s hs u, o.sem_head s hs, e, ap is_nil e, ap is_nil (f.units s hs u));
        units_max = f.units_max;
        counted = λ r hr. ground (
          arith,
          f.counted r hr,
          ==_ne (msg_head r) h (λ z. ground (arith, ap o.stores z, plain, o.queue_head r hr)),
          o.queue_head r hr,
        );
        fits = f.fits;
        roles = λ g a hg j. ground (
          arith,
          f.roles g a hg,
          f.roles h a hh,
          f.roles (p + 1) a hp,
          ap (has a) e,
          f.roles h w hh here,
          (==_iff a w).0,
          ap o.task,
          o.stores_far (p + 1),
          plain,
        );
        naps = λ t ht j.
            let (st, tc, out) = f.naps t ht (ground (arith, j)) in
            let other : (t == w) ≡ false =
              ==_ne t w (λ z. ground (arith, out h hh, here, ap (λ a. has a (lists h)) z)) in
            (
              st,
              tc,
              λ g hg. ground (arith, out g hg, out h hh, out (p + 1) hp, ap (has t) e, other),
            );
        ceiling = f.ceiling;
        timers = λ a ha j. f.timers a ha (ground (arith, j));
      }
