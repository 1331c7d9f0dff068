-- ===== src/Network/Rounds.antt =====
-- A round of the network task, call by call.
use fos.Prelude.{
  ℕ, zero, suc, ◌+◌, ◌*◌, ◌/◌, ◌%◌, ◌^◌, ◌<◌, ◌≡◌, ◌∙◌, ap, sym, refl, Bool, true, false, ltb, ◌==◌,
  ==_iff, Bool-cases, inl, inr, arith, if◌then◌else◌, Option, none, some, ◌⊎◌,
}
use mathlib.Core.Path.{subst}
use fos.Network.{
  Node, Uip, Thread, Outcome, exited, done, and_then, tapdev_init, clock_second, uip_conns,
  uip_ethtype_ip, uip_ethtype_arp, tapdev_read, tapdev_send, write_result, read_result, send_out,
  serve_frame, serve_conns, serve_arp, serve_timers, serve, uip_start,
}
use fos.Network.Protocol.{Protocol}

-- A computation that returns a value with a property, or ends the program at a node with another.
abbrev pub Gives : {Net A : Type 0} → (Node Net → Type 0) → (A → Type 0) → Outcome Net A → Type 0
Gives X P (exited n) = X n
Gives X P (done a) = P a

Gives-bind :
    {Net A B : Type 0} (X : Node Net → Type 0) (P : A → Type 0) (Q : B → Type 0) (x : Outcome Net A)
    (f : A → Outcome Net B)
    → Gives X P x
    → ((a : A) → P a → Gives X Q (f a))
    → Gives X Q (and_then x f)
Gives-bind X P Q (exited n) f broken h = broken
Gives-bind X P Q (done a) f p h = h a p

Gives-if :
    {Net A : Type 0} (X : Node Net → Type 0) (P : A → Type 0) (x y : Outcome Net A) (b : Bool)
    → (b ≡ true → Gives X P x)
    → (b ≡ false → Gives X P y)
    → Gives X P (if b then x else y)
Gives-if X P x y true p q = p refl
Gives-if X P x y false p q = q refl

both : {A : Type 0} (P : A → Type 0) {x y : A} (b : Bool) → P x → P y → P (if b then x else y)
both P true p q = p
both P false p q = q

-- No frame waits, or one is read: tapdev_read does not fail.
abbrev pub ReadSucceeds : {Net Timer : Type 0} → Uip Net Timer → Node Net → Type 0
ReadSucceeds {Net} u n =
    ((u.select n).1 ≡ 0) ⊎ ((n' : Node Net) × (len : ℕ) × (u.read (u.select n).0 ≡ (n', some len)))

module _ {Net Timer : Type 0} (u : Uip Net Timer) (p : Protocol u) where
  -- What a failing write of a complete frame left.
  abbrev pub Broken : Node Net → Type 0
  Broken n = (m : Node Net) × p.IsComplete m × (u.write m ≡ (n, none))

  write_result-IsFree :
      (n : Node Net) (r : Node Net × Option ℕ)
      → p.IsComplete n
      → u.write n ≡ r
      → Gives Broken p.IsFree (write_result u r)
  write_result-IsFree n (n', some ret) c e = p.write n n' ret c e
  write_result-IsFree n (n', none) c e = (n, c, e)

  tapdev_send-IsFree : (n : Node Net) → p.IsComplete n → Gives Broken p.IsFree (tapdev_send u n)
  tapdev_send-IsFree n c = write_result-IsFree n (u.write n) c refl

  send_out-IsFree : (n : Node Net) → p.HasPacket n → Gives Broken p.IsFree (send_out u n)
  send_out-IsFree n h =
      Gives-if Broken p.IsFree _ _ (ltb 0 n.uip_len)
        (λ e. tapdev_send-IsFree (u.uip_arp_out n) (p.uip_arp_out n h (ground (arith, e))))
        (λ e. p.silent n h (ground (arith, e)))

  serve_frame-IsFree : (n : Node Net) → p.HasFrame n → Gives Broken p.IsFree (serve_frame u n)
  unfolding serve_frame
  serve_frame-IsFree n h =
      Gives-if Broken p.IsFree _ _ (u.eth_type n == u.htons uip_ethtype_ip)
        (λ e.
          send_out-IsFree (u.uip_input (u.uip_arp_ipin n))
            (p.uip_input (u.uip_arp_ipin n) (p.uip_arp_ipin n h ((==_iff _ _).0 e))))
        λ ne.
          Gives-if Broken p.IsFree _ _ (u.eth_type n == u.htons uip_ethtype_arp)
            (λ e.
              let (complete, free) = p.uip_arp_arpin n h ((==_iff _ _).0 e) in
              Gives-if Broken p.IsFree _ _ (ltb 0 (u.uip_arp_arpin n).uip_len)
                (λ pos. tapdev_send-IsFree (u.uip_arp_arpin n) (complete (ground (arith, pos))))
                (λ none_left. free (ground (arith, none_left))))
            λ ne'. p.dropped n h (ground (arith, ne)) (ground (arith, ne'))

  serve_conns-IsFree :
      (todo i : ℕ) (n : Node Net)
      → todo + i ≡ uip_conns
      → p.IsFree n
      → Gives Broken p.IsFree (serve_conns u todo i n)
  unfolding serve_conns
  serve_conns-IsFree zero i n e f = f
  serve_conns-IsFree (suc todo) i n e f =
      Gives-bind Broken p.IsFree p.IsFree (send_out u (u.uip_periodic i n))
        (serve_conns u todo (i + 1))
        (send_out-IsFree (u.uip_periodic i n) (p.uip_periodic n i f (omega (arith, e))))
        λ n' f'. serve_conns-IsFree todo (i + 1) n' (omega (arith, e)) f'

  serve_arp-IsFree : (t : Thread Net Timer) → p.IsFree t.node → p.IsFree (serve_arp u t).node
  unfolding serve_arp
  serve_arp-IsFree t f =
      let f' = p.timer_expired t.node t.arp_timer f in
      both (λ (t : Thread Net Timer). p.IsFree t.node) (u.timer_expired t.arp_timer t.node).1
        (p.uip_arp_timer _ f') f'

  abbrev Rests : Thread Net Timer → Type 0
  Rests t = p.IsFree t.node

  -- The end of serve_timers.
  abbrev after_conns : Thread Net Timer → Node Net → Thread Net Timer
  after_conns t n =
      serve_arp u (record t { node = n; periodic_timer = u.timer_reset t.periodic_timer })

  serve_timers-IsFree :
      (t : Thread Net Timer) → p.IsFree t.node → Gives Broken Rests (serve_timers u t)
  unfolding serve_timers
  serve_timers-IsFree t f =
      let n = (u.timer_expired t.periodic_timer t.node).0 in
      let f' = p.timer_expired t.node t.periodic_timer f in
      Gives-if Broken Rests _ _ (u.timer_expired t.periodic_timer t.node).1
        (λ e.
          Gives-bind Broken p.IsFree Rests (serve_conns u uip_conns 0 n)
            (λ n. done (after_conns t n)) (serve_conns-IsFree uip_conns 0 n refl f')
            λ n g.
              serve_arp-IsFree
                (record t { node = n; periodic_timer = u.timer_reset t.periodic_timer }) g)
        (λ e. f')

  -- What is left to do after tapdev_read.
  abbrev serve_read : Thread Net Timer → Node Net × ℕ → Outcome Net (Thread Net Timer)
  serve_read t (n, len) =
      let n = record n { uip_len = len % 2 ^ 16 } in
      if ltb 0 n.uip_len
      then and_then (serve_frame u n) (λ n. done (record t { node = n }))
      else serve_timers u (record t { node = n })

  serve_lem : (t : Thread Net Timer) → serve u t ≡ serve_read t (tapdev_read u t.node)
  unfolding serve
  serve_lem t = refl

  serve_read-IsFree :
      (t : Thread Net Timer) (n : Node Net) (len : ℕ)
      → (0 < len → p.HasFrame (record n { uip_len = len }))
      → (len ≡ 0 → p.IsFree (record n { uip_len = len }))
      → len < 2 ^ 16
      → Gives Broken Rests (serve_read t (n, len))
  serve_read-IsFree t n len frame free lt =
      let same : len % 2 ^ 16 ≡ len = omega arith in
      let n' = record n { uip_len = len % 2 ^ 16 } in
      Gives-if Broken Rests _ _ (ltb 0 (len % 2 ^ 16))
        (λ e.
          Gives-bind Broken p.IsFree Rests (serve_frame u n') (λ n. done (record t { node = n }))
            (serve_frame-IsFree n' (
              subst (λ (l : ℕ). p.HasFrame (record n { uip_len = l })) (sym same)
                (frame (ground (arith, e, same)))))
            λ n f. f)
        (λ e.
          serve_timers-IsFree (record t { node = n' })
            (subst (λ (l : ℕ). p.IsFree (record n { uip_len = l })) (sym same)
              (free (ground (arith, e, same)))))

  read_as :
      (n : Node Net) {b : Bool}
      → ((u.select n).1 == 0) ≡ b
      → tapdev_read u n ≡ (if b then ((u.select n).0, 0) else read_result u (u.read (u.select n).0))
  read_as n e = ap (λ b. if b then ((u.select n).0, 0) else read_result u (u.read (u.select n).0)) e

  -- A round whose read does not fail keeps the protocol, unless a write fails.
  pub serve-IsFree :
      (t : Thread Net Timer)
      → p.IsFree t.node
      → ReadSucceeds u t.node
      → Gives Broken Rests (serve u t)
  serve-IsFree t f reads = elim (Bool-cases ((u.select t.node).1 == 0)) [
    | inl e ↦
        let z = (==_iff _ _).0 e in
        let read : tapdev_read u t.node ≡ ((u.select t.node).0, 0) = read_as t.node e in
        subst (Gives Broken Rests) (sym (serve_lem t ∙ ap (serve_read t) read)) (
          serve_read-IsFree t (u.select t.node).0 0 (λ lt. absurd (omega (arith, lt)))
            (λ e. p.nothing t.node f z) (omega arith))
    | inr ne ↦ elim reads [
      | inl z ↦ absurd (ground (arith, ne, z))
      | inr r ↦
          let (n, len, got) = r in
          let (lt, frame, free) = p.something t.node f (ground (arith, ne)) n len got in
          let read : tapdev_read u t.node ≡ (n, len) = read_as t.node ne ∙ ap (read_result u) got in
          subst (Gives Broken Rests) (sym (serve_lem t ∙ ap (serve_read t) read))
            (serve_read-IsFree t n len frame free lt)
    ]
  ]

  uip_start-Gives : (n : Node Net) → p.IsNew n → Gives (λ m. Unit) Rests (uip_start u n)
  unfolding uip_start
  uip_start-Gives n f =
      let n1 = (u.timer_set (clock_second / 2) n).0 in
      let n2 = (u.timer_set (clock_second * 10) n1).0 in
      let f2 = p.timer_set n1 (clock_second * 10) (p.timer_set n (clock_second / 2) f) in
      Gives-bind (λ m. Unit) p.IsNew Rests (tapdev_init u n2) _
        (Gives-if (λ m. Unit) p.IsNew _ _ (u.open_tap n2).1 (λ e. p.open_tap n2 f2 e) (λ e. tt))
        λ n f. p.httpd_init _ (
          p.uip_setnetmask _ _ _ _ _
            (p.uip_setdraddr _ _ _ _ _ (p.uip_sethostaddr _ _ _ _ _ (p.uip_init n f))))

  pub uip_start-IsFree :
      (n : Node Net) (t : Thread Net Timer) → p.IsNew n → uip_start u n ≡ done t → p.IsFree t.node
  uip_start-IsFree n t f e = subst (Gives (λ m. Unit) Rests) e (uip_start-Gives n f)
