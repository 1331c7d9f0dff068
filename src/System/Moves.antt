-- ===== src/System/Moves.antt =====
-- The facts between two calls where the running task changes its priority.
use fos.Prelude.{
  update, [], ◌∷◌, ◌++◌, has-append, ◌∉◌, ◌⊎◌, ℕ, ◌+◌, ◌<◌, ◌≡◌, ◌≢◌, refl, inl, inr, true, false,
  arith, ◌==◌, Bool-cases, ltb, ◌∈◌, has, has-remove, has-remove_other, ap, ==_iff, ==_ne, sym,
}
use fos.LinkedList.{Addr}
use fos.LinkedList.Shape.{Lists, Loose}
use fos.Kernel.{Kernel, tick_queue, set_prio, delay}
use fos.Sched.Models.{ready}
use fos.Mutex.{set_mutex}
use fos.Mutex.Ceiling.{moved, took}
use fos.System.{Layout}
use fos.System.Facts.{Facts, remutex}

module _ {o : Layout} {k : Kernel} {lists : Lists} (f : Facts o k lists) where
  module _ (p r : ℕ) (c : Addr) where
    moved_from : (g a : Addr) → a ∈ moved lists p r c g → (a == c) ≡ false → a ∈ lists g
    moved_from g a i ne = elim (Bool-cases (g == r + 1)) [
      | inl e ↦
          let z = (==_iff g (r + 1)).0 e in
          ground (arith, i, ne, e, has-remove c a (ready lists p), ap lists z)
      | inr other ↦ elim (Bool-cases (g == p + 1)) [
        | inl e ↦
            let z = (==_iff g (p + 1)).0 e in
            ground (arith, i, ne, other, e, has-remove c a (ready lists p), ap lists z)
        | inr ne' ↦ ground (arith, i, other, ne')
      ]
    ]

    pub moved_far : (g : Addr) → p < 32 → r < 32 → 32 < g → moved lists p r c g ≡ lists g
    moved_far g lt lt' far = ground arith

  -- The running task moves to another priority.
  pub moved-Facts :
      (p r : ℕ) (c : Addr)
      → p < 32
      → r < 32
      → c ≢ o.idle
      → o.head (p + 1) ≡ true
      → c ∈ ready lists p
      → Facts o k (moved lists p r c)
  moved-Facts p r c lt lt' ni hp i =
      let task_c : o.task c ≡ true =
        ground (arith, f.roles (p + 1) c hp i, lt, o.stores_far (p + 1)) in
      record {
        unlocked = f.unlocked;
        idle = ground (
          arith,
          f.idle,
          has-remove_other c o.idle (ready lists p),
          ==_ne o.idle c (λ e. ni (sym e)),
        );
        small = λ g a hg j. elim (Bool-cases (a == c)) [
          | inl e ↦ ground (arith, (==_iff a c).0 e, f.small (p + 1) c hp i)
          | inr ne ↦ f.small g a hg (moved_from p r c g a j ne)
        ];
        units = λ s hs u. ground (arith, f.units s hs u, o.sem_head s hs, moved_far p r c s lt lt');
        units_max = f.units_max;
        counted = λ q hq. ground (arith, f.counted q hq, o.queue_head q hq);
        fits = f.fits;
        roles = λ g a hg j. elim (Bool-cases (a == c)) [
          | inr ne ↦ f.roles g a hg (moved_from p r c g a j ne)
          | inl e ↦ elim (Bool-cases (ltb 32 g)) [
            | inl far ↦ f.roles g a hg (ground (arith, j, far))
            | inr near ↦ elim (Bool-cases (has a (lists g))) [
              | inl old ↦ f.roles g a hg old
              | inr out ↦
                  let at : (g == tick_queue) ≡ false = ground (arith, near) in
                  ground (arith, at, near, task_c, ap o.task ((==_iff a c).0 e), o.stores_far g)
            ]
          ]
        ];
        naps = λ t ht j.
            let (st, tc, out) =
              f.naps t ht (ground (arith, j, moved_far p r c tick_queue lt lt')) in
            let other : (t == c) ≡ false =
              ==_ne t c
                (λ e. ground (arith, out (p + 1) hp, i, ap (λ a. has a (ready lists p)) e)) in
            (st, tc, λ g hg. ground (arith, out g hg, moved_from p r c g t, other));
        ceiling = f.ceiling;
        timers = λ a ha j. f.timers a ha (ground (arith, j, moved_far p r c tick_queue lt lt'));
      }

  -- A mutex that is taken notes a priority in range; one that is given, or that notes a task, keeps it.
  pub took-Facts : (m : Addr) → (k.tcb k.new_task).prio < 32 → Facts o (took k m) lists
  took-Facts m lt = remutex _ f refl refl refl refl (λ a ha. ground (arith, lt, f.ceiling a ha))

  pub gave-Facts :
      (m r : ℕ)
      → Facts o (set_mutex (set_prio k k.new_task r) m (record (k.mutex m) { enable = 1 })) lists
  gave-Facts m r =
      remutex _ f refl refl refl refl
        (λ a ha. ground (arith, f.ceiling a ha, ap (λ b. (k.mutex b).copy_prio)))

  pub waits-Facts : (m c : Addr) → Facts o (set_mutex k m (record (k.mutex m) { tcb = c })) lists
  waits-Facts m c =
      remutex _ f refl refl refl refl
        (λ a ha. ground (arith, f.ceiling a ha, ap (λ b. (k.mutex b).copy_prio)))

  -- A new task that is in no list joins the queue of its priority.
  pub joined-Facts :
      (p : ℕ) (t : Addr)
      → p < 32
      → o.head (p + 1) ≡ true
      → o.task t ≡ true
      → Loose o.head lists t
      → delay t ∉ lists tick_queue
      → Facts o k (update lists (p + 1) (ready lists p ++ t ∷ []))
  joined-Facts p t lt hp ht loose awake =
      let from : (g a : Addr)
          → a ∈ update lists (p + 1) (ready lists p ++ t ∷ []) g
          → (a ∈ lists g) ⊎ ((a ≡ t) × (g ≡ p + 1)) =
        λ g a i. elim (Bool-cases (g == p + 1)) [
          | inr ne ↦ inl (ground (arith, i, ne))
          | inl e ↦ elim (Bool-cases (a == t)) [
            | inl e' ↦ inr ((==_iff a t).0 e', (==_iff g (p + 1)).0 e)
            | inr ne' ↦ inl (
                ground (
                  arith,
                  i,
                  e,
                  ne',
                  has-append a (ready lists p) (t ∷ []),
                  ap (λ h. has a (lists h)) ((==_iff g (p + 1)).0 e),
                ))
          ]
        ] in
      record {
        unlocked = f.unlocked;
        idle = ground (arith, f.idle, has-append o.idle (ready lists p) (t ∷ []));
        small = λ g a hg i. elim (from g a i) [
          | inl j ↦ f.small g a hg j
          | inr (e, z) ↦ ground (arith, e, o.delay_node t ht)
        ];
        units = λ s hs u. ground (arith, f.units s hs u, o.sem_head s hs);
        units_max = f.units_max;
        counted = λ q hq. ground (arith, f.counted q hq, o.queue_head q hq);
        fits = f.fits;
        roles = λ g a hg i. elim (from g a i) [
          | inl j ↦ f.roles g a hg j
          | inr (e, z) ↦ ground (arith, e, z, ap o.task e, ht, o.stores_far g)
        ];
        naps = λ u hu i.
            let (st, tc, out) = f.naps u hu (ground (arith, i)) in
            (
              st,
              tc,
              λ g hg. elim (Bool-cases (has u (update lists (p + 1) (ready lists p ++ t ∷ []) g))) [
                | inr gone ↦ gone
                | inl j ↦ absurd (elim (from g u j) [
                  | inl old ↦ ground (arith, old, out g hg)
                  | inr (e, z) ↦
                      ground (arith, i, awake, ap (λ a. has (delay a) (lists tick_queue)) e)
                ])
              ],
            );
        ceiling = f.ceiling;
        timers = λ a ha i. f.timers a ha (ground (arith, i));
      }
