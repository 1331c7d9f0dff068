-- ===== src/System/Naps.antt =====
-- The facts between two calls under the changes that a call makes to the tick queue.
use fos.Prelude.{
  ℕ, ◌+◌, ◌<◌, ◌≡◌, ◌≢◌, inl, inr, true, false, [], ◌∷◌, ◌++◌, arith, ◌==◌, Bool-cases, update, ◌∈◌,
  ◌∉◌, has, has-append, has-remove, has-remove_other, remove, ap, ==_ne, ==_iff, sym,
}
use fos.LinkedList.{Addr}
use fos.LinkedList.Shape.{Lists, Loose}
use fos.Kernel.{Kernel, Tick, tick_queue, delay}
use fos.Sched.Models.{ready}
use fos.Timer.{set_tick, software_timer, delay_style}
use fos.Timer.Sleep.{asleep}
use fos.System.{Layout}
use fos.System.Facts.{Facts}

delay_same : (t c : Addr) → (delay t == delay c) ≡ true → t ≡ c
delay_same t c e = omega (arith, (==_iff (delay t) (delay c)).0 e)

module _ {o : Layout} {k : Kernel} {lists : Lists} (f : Facts o k lists) where
  -- A software timer hangs on the tick queue.
  pub hung-Facts :
      (a : Addr) (x : Tick)
      → o.timer a ≡ true
      → a < o.size
      → x.style ≡ software_timer
      → Facts o (set_tick k a x) (update lists tick_queue (lists tick_queue ++ a ∷ []))
  hung-Facts a x ha lt soft = record {
    unlocked = f.unlocked;
    idle = f.idle;
    small = λ g b hg i. ground (
      arith,
      f.small g b hg,
      f.small tick_queue b o.ticks,
      has-append b (lists tick_queue) (a ∷ []),
      (==_iff b a).0,
    );
    units = λ s hs u. ground (arith, f.units s hs u, o.sem_head s hs);
    units_max = f.units_max;
    counted = λ q hq. ground (arith, f.counted q hq, o.queue_head q hq);
    fits = f.fits;
    roles = λ g b hg i. ground (
      arith,
      f.roles g b hg,
      f.roles tick_queue b o.ticks,
      has-append b (lists tick_queue) (a ∷ []),
      (==_iff b a).0,
      ap o.timer,
    );
    naps = λ t ht i.
        let ne : (delay t == a) ≡ false =
          ==_ne (delay t) a (λ e. ground (arith, ap o.timer e, o.delay_node t ht)) in
        let (st, tc, out) =
          f.naps t ht (ground (arith, i, ne, has-append (delay t) (lists tick_queue) (a ∷ []))) in
        (
          ground (arith, ne, st),
          ground (arith, ne, tc),
          λ g hg. ground (
            arith,
            out g hg,
            out tick_queue o.ticks,
            has-append t (lists tick_queue) (a ∷ []),
            ==_ne t a (λ e. ground (arith, ap o.timer e, o.task_node t ht)),
          ),
        );
    ceiling = f.ceiling;
    timers =
        λ b hb i. ground (arith, soft, f.timers b hb, has-append b (lists tick_queue) (a ∷ []));
  }

  -- A ready task is in no other list, and its delay in none.
  module _ (p : ℕ) (c : Addr) (lt : p < 32) (hp : o.head (p + 1) ≡ true)
      (i : c ∈ ready lists p) where
    pub ready_task : o.task c ≡ true
    ready_task = ground (arith, f.roles (p + 1) c hp i, lt, o.stores_far (p + 1))

    pub delay-Loose : Loose o.head lists (delay c)
    delay-Loose = record {
      free = λ h hh. elim (Bool-cases (has (delay c) (lists h))) [
        | inr out ↦ out
        | inl j ↦ elim (Bool-cases (h == tick_queue)) [
          | inl e ↦
              let z = (==_iff h tick_queue).0 e in
              absurd (
                ground (
                  arith,
                  i,
                  (f.naps c ready_task (ground (arith, ap (λ b. has (delay c) (lists b)) z))).2
                      (p + 1) hp,
                ))
          | inr ne ↦
              absurd (ground (arith, f.roles h (delay c) hh j, ne, o.delay_node c ready_task))
        ]
      ];
      no_head = (o.delay_node c ready_task).0;
    }

    -- Asleep, it leaves its ready queue, and its delay comes to the tick queue, and nothing else.
    asleep_from : (g b : Addr) → b ∈ asleep lists p c g → (b == delay c) ≡ false → b ∈ lists g
    asleep_from g b j ne = elim (Bool-cases (g == p + 1)) [
      | inl e ↦
          let z = (==_iff g (p + 1)).0 e in
          ground (
            arith,
            j,
            ne,
            has-append b (lists tick_queue) (delay c ∷ []),
            has-remove c b (ready lists p),
            ap lists z,
          )
      | inr other ↦ elim (Bool-cases (g == tick_queue)) [
        | inl e ↦
            let z = (==_iff g tick_queue).0 e in
            ground (arith, j, ne, has-append b (lists tick_queue) (delay c ∷ []), ap lists z)
        | inr ne' ↦ ground (arith, j, other, ne')
      ]
    ]

    asleep_at :
        (g : Addr) → o.head g ≡ true → delay c ∈ asleep lists p c g → (g == tick_queue) ≡ true
    asleep_at g hg j = ground (
      arith,
      delay-Loose.free g hg,
      delay-Loose.free (p + 1) hp,
      has-remove c (delay c) (ready lists p),
    )

    not_task : (t : Addr) → o.task t ≡ true → (g : Addr) → t ∉ lists g → t ∉ asleep lists p c g
    not_task t ht g out = ground (
      arith,
      out,
      asleep_from g t,
      ==_ne t (delay c) (λ e. ground (arith, ap o.task e, o.delay_node c ready_task)),
    )

    gone_out :
        Loose o.head (update lists (p + 1) (remove c (ready lists p))) c
        → (g : Addr) → o.head g ≡ true
        → c ∉ asleep lists p c g
    gone_out gone g hg = ground (
      arith,
      gone.free g hg,
      gone.free tick_queue o.ticks,
      lt,
      has-append c (lists tick_queue) (delay c ∷ []),
    )

    -- The running task goes to sleep.
    pub asleep-Facts :
        (x : Tick)
        → c ≢ o.idle
        → Loose o.head (update lists (p + 1) (remove c (ready lists p))) c
        → x.style ≡ delay_style
        → x.tcb ≡ c
        → Facts o (set_tick k (delay c) x) (asleep lists p c)
    asleep-Facts x ni gone st0 tc0 = record {
      unlocked = f.unlocked;
      idle = ground (
        arith,
        f.idle,
        has-remove_other c o.idle (ready lists p),
        ==_ne o.idle c (λ e. ni (sym e)),
      );
      small = λ g b hg j. elim (Bool-cases (b == delay c)) [
        | inl e ↦ ground (arith, (==_iff b (delay c)).0 e, o.delay_node c ready_task)
        | inr ne ↦ f.small g b hg (asleep_from g b j ne)
      ];
      units = λ s hs u. ground (arith, f.units s hs u, o.sem_head s hs);
      units_max = f.units_max;
      counted = λ q hq. ground (arith, f.counted q hq, o.queue_head q hq);
      fits = f.fits;
      roles = λ g b hg j. elim (Bool-cases (b == delay c)) [
        | inl e ↦
            let z = (==_iff b (delay c)).0 e in
            ground (
              arith,
              asleep_at g hg (ground (arith, j, ap (λ a. has a (asleep lists p c g)) z)),
              z,
              ready_task,
            )
        | inr ne ↦ f.roles g b hg (asleep_from g b j ne)
      ];
      naps = λ t ht j. elim (Bool-cases (t == c)) [
        | inl e ↦
            let z = (==_iff t c).0 e in
            (
              ground (arith, z, st0),
              ground (arith, z, tc0),
              λ g hg. ground (arith, gone_out gone g hg, ap (λ a. has a (asleep lists p c g)) z),
            )
        | inr ne ↦
            let no : (delay t == delay c) ≡ false = ground (arith, ne) in
            let (st, tc, out) = f.naps t ht (asleep_from tick_queue (delay t) j no) in
            (ground (arith, no, st), ground (arith, no, tc), λ g hg. not_task t ht g (out g hg))
      ];
      ceiling = f.ceiling;
      timers = λ b hb j.
          let ne : (b == delay c) ≡ false =
            ==_ne b (delay c) (λ e. ground (arith, ap o.timer e, o.delay_node c ready_task)) in
          ground (arith, ne, f.timers b hb (asleep_from tick_queue b j ne));
    }
