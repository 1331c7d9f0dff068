-- ===== src/System/Objects.antt =====
-- The facts between two calls under the changes that a call makes to a semaphore or a queue.
use fos.Prelude.{
  ℕ, ◌+◌, ◌-◌, ◌<◌, ◌≤◌, ◌≡◌, inl, inr, true, false, List, [], ◌∷◌, arith, ◌==◌, Bool-cases,
  if◌then◌else◌, update, length, ◌∈◌, has-append, length-append, ap, ==_ne, ==_iff, ◌∙◌,
}
use fos.LinkedList.{Addr}
use fos.LinkedList.Shape.{Lists}
use fos.Kernel.{Kernel, msg_head}
use fos.Semaphore.{set_sem}
use fos.MessageQueue.{set_queue}
use fos.MessageQueue.Put.{stored}
use fos.System.{Layout}
use fos.System.Facts.{Facts}

stored-has :
    (method a msg : ℕ) (msgs : List Addr)
    → a ∈ stored method msgs msg
    → (a == msg) ≡ false
    → a ∈ msgs
stored-has method a msg msgs i ne = ground (arith, has-append a msgs (msg ∷ []))

length-stored :
    (method msg : ℕ) (msgs : List Addr) → length (stored method msgs msg) ≡ length msgs + 1
length-stored method msg msgs = ground (arith, length-append msgs (msg ∷ []))

module _ {o : Layout} {k : Kernel} {lists : Lists} (f : Facts o k lists) where
  -- A unit is taken.
  pub taken-Facts :
      (s : Addr)
      → o.sem s ≡ true
      → 0 < (k.sem s).count
      → Facts o (set_sem k s (record (k.sem s) { count = (k.sem s).count - 1 })) lists
  taken-Facts s hs pos = record {
    unlocked = f.unlocked;
    idle = f.idle;
    small = f.small;
    units = λ a ha u. elim (Bool-cases (a == s)) [
      | inl e ↦ ap lists ((==_iff a s).0 e) ∙ f.units s hs pos
      | inr ne ↦ f.units a ha (ground (arith, ne, u))
    ];
    units_max = λ a ha. ground (arith, f.units_max a ha, f.units_max s hs);
    counted = f.counted;
    fits = f.fits;
    roles = f.roles;
    naps = f.naps;
    ceiling = f.ceiling;
    timers = f.timers;
  }

  -- A unit is given where nobody waits, below the limit of the count and in general.
  counted_up-Facts :
      (s : Addr)
      → o.sem s ≡ true
      → lists s ≡ []
      → (k.sem s).count < 0xffffffff
      → Facts o (set_sem k s (record (k.sem s) { count = (k.sem s).count + 1 })) lists
  counted_up-Facts s hs nobody less = record {
    unlocked = f.unlocked;
    idle = f.idle;
    small = f.small;
    units = λ a ha u. elim (Bool-cases (a == s)) [
      | inl e ↦ ap lists ((==_iff a s).0 e) ∙ nobody
      | inr ne ↦ f.units a ha (ground (arith, ne, u))
    ];
    units_max = λ a ha. ground (arith, f.units_max a ha);
    counted = f.counted;
    fits = f.fits;
    roles = f.roles;
    naps = f.naps;
    ceiling = f.ceiling;
    timers = f.timers;
  }

  pub given-Facts :
      (s : Addr)
      → o.sem s ≡ true
      → lists s ≡ []
      → Facts o
          (if (k.sem s).count == 0xffffffff
            then k
            else set_sem k s (record (k.sem s) { count = (k.sem s).count + 1 }))
          lists
  given-Facts s hs nobody = elim (Bool-cases ((k.sem s).count == 0xffffffff)) [
    | inl max ↦ rw max f
    | inr less ↦ rw less (counted_up-Facts s hs nobody (ground (arith, f.units_max s hs)))
  ]

  -- A semaphore notes the running task.
  pub noted-Facts : (s c : Addr) → Facts o (set_sem k s (record (k.sem s) { tcb = c })) lists
  noted-Facts s c = record {
    unlocked = f.unlocked;
    idle = f.idle;
    small = f.small;
    units = λ a ha u. f.units a ha (ground (arith, u, ap (λ b. (k.sem b).count)));
    units_max = λ a ha. ground (arith, f.units_max a ha);
    counted = f.counted;
    fits = f.fits;
    roles = f.roles;
    naps = f.naps;
    ceiling = f.ceiling;
    timers = f.timers;
  }

  -- A node among the messages of a queue is a message.
  message_of :
      (q : Addr)
      → o.queue q ≡ true
      → (a : Addr) → a ∈ lists (msg_head q)
      → (a < o.size) × (o.message a ≡ true)
  message_of q hq a i =
      let (hh, hm, far, plain, mine) = o.queue_head q hq in
      (f.small (msg_head q) a hm i, ground (arith, f.roles (msg_head q) a hm i, far, mine))

  -- The list of a queue and its count change together.
  recounted :
      (q n : Addr) (xs : List Addr)
      → o.queue q ≡ true
      → n ≡ length xs
      → n ≤ (k.queue q).length
      → ((a : Addr) → a ∈ xs → (a < o.size) × (o.message a ≡ true))
      → Facts o (set_queue k q (record (k.queue q) { count = n })) (update lists (msg_head q) xs)
  recounted q n xs hq en le b = record {
    unlocked = f.unlocked;
    idle = ground (arith, f.idle, o.queue_head q hq);
    small = λ g a hg i. ground (arith, f.small g a hg, b a);
    units = λ s hs u. ground (
      arith,
      f.units s hs u,
      o.sem_head s hs,
      o.queue_head q hq,
      ==_ne s (msg_head q) (λ e. ground (arith, ap o.stores e, o.sem_head s hs, o.queue_head q hq)),
    );
    units_max = f.units_max;
    counted = λ r hr. ground (arith, f.counted r hr, en);
    fits = λ r hr. ground (arith, f.fits r hr, le);
    roles = λ g a hg i. elim (Bool-cases (g == msg_head q)) [
      | inl e ↦
          let z = (==_iff g (msg_head q)).0 e in
          ground (arith, b a, o.queue_head q hq, ap o.stores z)
      | inr ne ↦ ground (arith, ne, f.roles g a hg)
    ];
    naps = λ t ht i.
        let (st, tc, out) = f.naps t ht (ground (arith, i, o.queue_head q hq)) in
        (st, tc, λ g hg. ground (arith, out g hg, b t, o.task_node t ht));
    ceiling = f.ceiling;
    timers = λ a ha i. f.timers a ha (ground (arith, i, o.queue_head q hq));
  }

  pub stored-Facts :
      (q msg method : Addr)
      → o.queue q ≡ true
      → msg < o.size
      → o.message msg ≡ true
      → (k.queue q).count < (k.queue q).length
      → Facts o
          (set_queue k q (record (k.queue q) { count = (k.queue q).count + 1 }))
          (update lists (msg_head q) (stored method (lists (msg_head q)) msg))
  stored-Facts q msg method hq lt kind room =
      recounted q ((k.queue q).count + 1) (stored method (lists (msg_head q)) msg) hq
        (omega (arith, f.counted q hq, length-stored method msg (lists (msg_head q)))) (omega arith)
        (λ a i. elim (Bool-cases (a == msg)) [
          | inl e ↦ ground (arith, (==_iff a msg).0 e, ap o.message ((==_iff a msg).0 e))
          | inr ne ↦ message_of q hq a (stored-has method a msg (lists (msg_head q)) i ne)
        ])

  pub fetched-Facts :
      (q : Addr) {msg : Addr} {msgs : List Addr}
      → o.queue q ≡ true
      → lists (msg_head q) ≡ msg ∷ msgs
      → Facts o
          (set_queue k q (record (k.queue q) { count = (k.queue q).count - 1 }))
          (update lists (msg_head q) msgs)
  fetched-Facts q {msg} {msgs} hq e =
      recounted q ((k.queue q).count - 1) msgs hq (omega (arith, f.counted q hq, ap length e))
        (omega (arith, f.fits q hq)) (λ a i. message_of q hq a (rw e (ground arith)))
