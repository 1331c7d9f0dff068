-- ===== src/System/Wakes.antt =====
-- The lists after tasks have been woken, and the entries that a tick keeps and wakes by.
use fos.Prelude.{
  ◌+◌, ◌<◌, ◌≤◌, ◌≡◌, refl, inl, inr, true, List, [], ◌∷◌, ◌++◌, arith, ◌==◌, Bool-cases, update,
  length, ◌∈◌, ◌∉◌, has, has-append, length-append, ap, ==_iff, sym, ◌∙◌,
}
use fos.LinkedList.{Addr}
use fos.LinkedList.Shape.{Lists}
use fos.Kernel.{Tick, Tcb, delay}
use fos.Sched.Models.{ready}
use fos.Timer.Ages.{wakes, stays, aged, kept, sleepers, wake_all, IsNodup}

pub aged-style : (τ : Tick) → ((aged τ).style ≡ τ.style) × ((aged τ).tcb ≡ τ.tcb)
aged-style τ = elim (Bool-cases (τ.timeout == 0)) [
  | inl e ↦ ground (arith, e)
  | inr e ↦ ground (arith, e)
]

module _ (tcb : Addr → Tcb) (lt : (t : Addr) → (tcb t).prio < 32) where
  pub wake_all_old :
      (cs : List Addr) (lists : Lists) (h a : Addr) → a ∈ lists h → a ∈ wake_all tcb cs lists h
  unfolding wake_all
  wake_all_old [] lists h a i = i
  wake_all_old (c ∷ cs) lists h a i =
      let p = (tcb c).prio in
      wake_all_old cs (update lists (p + 1) (ready lists p ++ c ∷ [])) h a
        (elim (Bool-cases (h == p + 1)) [
          | inl e ↦
              ground
                (arith, has-append a (ready lists p) (c ∷ []), ap lists ((==_iff h (p + 1)).0 e))
          | inr ne ↦ ground (arith, ne)
        ])

  pub wake_all_at :
      (cs : List Addr) (lists : Lists) (h a : Addr)
      → a ∈ wake_all tcb cs lists h
      → a ∉ lists h
      → (a ∈ cs) × (h ≡ (tcb a).prio + 1)
  unfolding wake_all
  wake_all_at [] lists h a i out = absurd (ground arith)
  wake_all_at (c ∷ cs) lists h a i out =
      let p = (tcb c).prio in
      let lists1 = update lists (p + 1) (ready lists p ++ c ∷ []) in
      elim (Bool-cases (has a (lists1 h))) [
        | inr out1 ↦ let (j, e) = wake_all_at cs lists1 h a i out1 in (ground arith, e)
        | inl i1 ↦ elim (Bool-cases (h == p + 1)) [
          | inr ne ↦ absurd (ground (arith, ne, i1))
          | inl e ↦
              let z = (==_iff h (p + 1)).0 e in
              let same : (a == c) ≡ true =
                ground (arith, i1, e, has-append a (ready lists p) (c ∷ []), ap lists z, out) in
              let za = (==_iff a c).0 same in
              (ground (arith, same), z ∙ ap (λ b. (tcb b).prio + 1) (sym za))
        ]
      ]

  pub wake_all_far :
      (cs : List Addr) (lists : Lists) (h : Addr) → 32 < h → wake_all tcb cs lists h ≡ lists h
  unfolding wake_all
  wake_all_far [] lists h far = refl
  wake_all_far (c ∷ cs) lists h far =
      let p = (tcb c).prio in
      wake_all_far cs (update lists (p + 1) (ready lists p ++ c ∷ [])) h far ∙ ground (arith, lt c)

  pub length-wake_all :
      (cs : List Addr) (lists : Lists) (h : Addr)
      → length (wake_all tcb cs lists h) ≤ length (lists h) + length cs
  unfolding wake_all
  length-wake_all [] lists h = omega arith
  length-wake_all (c ∷ cs) lists h =
      let p = (tcb c).prio in
      let lists1 = update lists (p + 1) (ready lists p ++ c ∷ []) in
      let rest = length-wake_all cs lists1 h in
      elim (Bool-cases (h == p + 1)) [
        | inl e ↦
            ground (
              arith,
              rest,
              length-append (ready lists p) (c ∷ []),
              ap lists ((==_iff h (p + 1)).0 e),
            )
        | inr ne ↦ ground (arith, rest, ne)
      ]

module _ (tick : Addr → Tick) where
  pub kept_from :
      (ys : List Addr) (y : Addr) → y ∈ kept tick ys → (y ∈ ys) × (stays (tick y) ≡ true)
  unfolding kept
  kept_from [] y i = absurd (ground arith)
  kept_from (x ∷ xs) y i = elim (Bool-cases (stays (tick x))) [
    | inl s ↦ elim (Bool-cases (y == x)) [
      | inl e ↦ (ground (arith, e), ap (λ a. stays (tick a)) ((==_iff y x).0 e) ∙ s)
      | inr ne ↦ let (j, st) = kept_from xs y (ground (arith, s, ne, i)) in (ground (arith, j), st)
    ]
    | inr s ↦ let (j, st) = kept_from xs y (ground (arith, s, i)) in (ground (arith, j), st)
  ]

  pub sleepers_from :
      (ys : List Addr) (c : Addr)
      → c ∈ sleepers tick ys
      → (y : Addr) × (y ∈ ys) × (wakes (tick y) ≡ true) × ((tick y).tcb ≡ c)
  unfolding sleepers
  sleepers_from [] c i = absurd (ground arith)
  sleepers_from (x ∷ xs) c i = elim (Bool-cases (wakes (tick x))) [
    | inl w ↦ elim (Bool-cases (c == (tick x).tcb)) [
      | inl e ↦ (x, ground arith, w, sym ((==_iff c (tick x).tcb).0 e))
      | inr ne ↦
          let (y, j, w', e) = sleepers_from xs c (ground (arith, w, ne, i)) in
          (y, ground (arith, j), w', e)
    ]
    | inr w ↦
        let (y, j, w', e) = sleepers_from xs c (ground (arith, w, i)) in
        (y, ground (arith, j), w', e)
  ]

  pub length-sleepers : (ys : List Addr) → length (sleepers tick ys) ≤ length ys
  unfolding sleepers
  length-sleepers [] = omega arith
  length-sleepers (x ∷ xs) = ground (arith, length-sleepers xs)

  fresh :
      (x : Addr) (xs : List Addr)
      → x ∉ xs
      → IsNodup xs
      → ((y : Addr) → y ∈ (x ∷ xs) → wakes (tick y) ≡ true → y ≡ delay (tick y).tcb)
      → wakes (tick x) ≡ true
      → (tick x).tcb ∉ sleepers tick xs
  fresh x xs out d own w = elim (Bool-cases (has (tick x).tcb (sleepers tick xs))) [
    | inr no_more ↦ no_more
    | inl i ↦
        let (y, j, w', e) = sleepers_from xs (tick x).tcb i in
        let same : y ≡ x =
          own y (ground (arith, j)) w' ∙ ap delay e ∙ sym (own x (ground arith) w) in
        absurd (ground (arith, out, j, ap (λ a. has a xs) same))
  ]

  -- Different entries of different tasks wake different tasks.
  pub sleepers-IsNodup :
      (ys : List Addr)
      → IsNodup ys
      → ((y : Addr) → y ∈ ys → wakes (tick y) ≡ true → y ≡ delay (tick y).tcb)
      → IsNodup (sleepers tick ys)
  unfolding sleepers
  sleepers-IsNodup [] d own = tt
  sleepers-IsNodup (x ∷ xs) (out, d) own =
      let rest = sleepers-IsNodup xs d (λ y i. own y (ground (arith, i))) in
      elim (Bool-cases (wakes (tick x))) [
        | inr w ↦ rw w rest
        | inl w ↦ rw w (fresh x xs out d own w, rest)
      ]
