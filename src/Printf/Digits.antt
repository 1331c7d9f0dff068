-- ===== src/Printf/Digits.antt =====
-- What `itoa` of libc/printf.c writes in decimal, and `skip_atoi` of libc/lib.c reads back.
use mathlib.Core.Path.{subst}
use fos.Prelude.{
  ℕ, zero, suc, ◌+◌, ◌-◌, ◌*◌, ◌/◌, ◌%◌, ◌^◌, ◌<◌, ◌≤◌, ◌≡◌, ◌⊎◌, refl, inl, inr, some, List, [],
  ◌∷◌, ◌++◌, arith, ltb, ◌==◌, if◌then◌else◌, Bool-cases, length, length-append, update, ap, ◌∙◌,
}
use fos.Libc.{Memory, skip_atoi}
use fos.Libc.Strings.{HoldsDigits, decimal, skip_atoi-decimal}
use fos.Printf.{ascii_digit, store_digits, swap_ends, itoa}

-- The decimal digits of a number, the lowest first, and in the order in which they are read.
abbrev low_digits : ℕ → ℕ → List ℕ
low_digits zero val = []
low_digits (suc n) val = if val / 10 == 0 then val % 10 ∷ [] else val % 10 ∷ low_digits n (val / 10)

abbrev turned : List ℕ → List ℕ
turned [] = []
turned (d ∷ ds) = turned ds ++ d ∷ []

-- At `p` and behind stand the digits `ds`.
abbrev StandAt : Memory → ℕ → List ℕ → Type 0
StandAt mem p [] = Unit
StandAt mem p (d ∷ ds) = (mem p ≡ 48 + d) × (d < 10) × StandAt mem (p + 1) ds

StandAt-append :
    (mem : Memory) (p q : ℕ) (xs ys : List ℕ)
    → q ≡ p + length xs
    → StandAt mem p xs
    → StandAt mem q ys
    → StandAt mem p (xs ++ ys)
StandAt-append mem p q [] ys eq hx hy = subst (λ a. StandAt mem a ys) (omega (arith, eq)) hy
StandAt-append mem p q (x ∷ xs) ys eq (e, lt, hx) hy =
    (e, lt, StandAt-append mem (p + 1) q xs ys (omega arith) hx hy)

length-turned : (ds : List ℕ) → length (turned ds) ≡ length ds
length-turned [] = refl
length-turned (d ∷ ds) = omega (arith, length-append (turned ds) (d ∷ []), length-turned ds)

decimal-append : (i d : ℕ) (ds : List ℕ) → decimal i (ds ++ d ∷ []) ≡ decimal i ds * 10 + d
unfolding decimal
decimal-append i d [] = refl
decimal-append i d (x ∷ ds) = decimal-append (i * 10 + x) d ds

-- The digits spell the number.
decimal-turned : (n val : ℕ) → val < 10 ^ n → decimal 0 (turned (low_digits n val)) ≡ val
unfolding decimal
decimal-turned zero val lt = omega (arith, lt)
decimal-turned (suc n) val lt = elim (Bool-cases (val / 10 == 0)) [
  | inl e ↦ ground (arith, e)
  | inr e ↦ ground (
    arith,
    e,
    decimal-append 0 (val % 10) (turned (low_digits n (val / 10))),
    decimal-turned n (val / 10) (omega arith),
  )
]

-- Digits that stand from the lowest on stand in the order of reading in a memory that is turned round
-- between `s` and `e`.
StandAt-turned :
    (mem mem' : Memory) (s e p : ℕ) (ds : List ℕ)
    → StandAt mem p ds
    → p + length ds ≡ e + 1
    → s ≤ p
    → ((i : ℕ) → s + i ≤ e → mem' (s + i) ≡ mem (e - i))
    → StandAt mem' s (turned ds)
StandAt-turned mem mem' s e p [] h pe sp turn = tt
StandAt-turned mem mem' s e p (d ∷ ds) (hd, lt, h) pe sp turn =
    let at : mem' (s + length ds) ≡ 48 + d =
      turn (length ds) (omega arith) ∙ ap mem (omega arith) ∙ hd in
    StandAt-append mem' s (s + length ds) (turned ds) (d ∷ []) (omega (arith, length-turned ds))
      (StandAt-turned mem mem' s e (p + 1) ds h (omega arith) (omega arith) turn) (at, lt, tt)

-- The first loop writes the digits, the lowest first, and nothing else.
some_round : (fuel v : ℕ) → 0 < v → v < 10 ^ fuel → 0 < fuel
some_round zero v pos lt = absurd (omega (arith, pos, lt))
some_round (suc fuel) v pos lt = omega arith

store_digits_lem :
    (fuel val p : ℕ) (mem : Memory)
    → 0 < fuel
    → val < 10 ^ fuel
    → (mem' : Memory) × (store_digits fuel val 10 p mem
        ≡ some (p + length (low_digits fuel val), mem'))
      × StandAt mem' p (low_digits fuel val)
      × ((a : ℕ) → a < p → mem' a ≡ mem a)
      × (0 < length (low_digits fuel val))
unfolding store_digits ascii_digit
store_digits_lem zero val p mem go lt = absurd (omega arith)
store_digits_lem (suc fuel) val p mem go lt = elim (Bool-cases (val / 10 == 0)) [
  | inl e ↦ rw e (
    update mem p (ascii_digit (val % 10)),
    refl,
    (ground arith, omega arith, tt),
    λ a h. ground arith,
    omega arith,
  )
  | inr e ↦
      let mem1 = update mem p (ascii_digit (val % 10)) in
      let (mem', eq, st, below, pos) =
        store_digits_lem fuel (val / 10) (p + 1) mem1
          (some_round fuel (val / 10) (ground (arith, e)) (omega arith)) (omega arith) in
      rw e (
        mem',
        eq ∙ ap (λ q. some (q, mem')) (omega arith),
        (below p (omega arith) ∙ ground arith, omega arith, st),
        λ a h. below a (omega arith) ∙ ground arith,
        omega arith,
      )
]

-- One swap.
swapped :
    (mem : Memory) (f p i : ℕ)
    → f + i ≤ p
    → (i ≡ 0) ⊎ ((f + i ≡ p) ⊎ (f + i ≡ p - i))
    → update (update mem p (mem f)) f (mem p) (f + i) ≡ mem (p - i)
swapped mem f p i hi edge = elim (Bool-cases (f + i == f)) [
  | inl e ↦ rw e (ap mem (ground (arith, e)))
  | inr ne ↦ elim (Bool-cases (f + i == p)) [
    | inl last ↦ rw ne (rw last (ap mem (ground (arith, last))))
    | inr mid ↦ rw ne (rw mid (ap mem (ground (arith, ne, mid, edge))))
  ]
]

-- The second loop turns the memory between its ends round.
swap_ends_lem :
    (fuel f p : ℕ) (mem : Memory)
    → f ≤ p
    → p < f + 2 * fuel
    → (mem' : Memory) × (swap_ends fuel f p mem ≡ some mem')
      × ((i : ℕ) → f + i ≤ p → mem' (f + i) ≡ mem (p - i))
      × ((a : ℕ) → (a < f) ⊎ (p < a) → mem' a ≡ mem a)
unfolding swap_ends
swap_ends_lem zero f p mem le lt = absurd (omega arith)
swap_ends_lem (suc fuel) f p mem le lt = elim (Bool-cases (ltb (f + 1) (p - 1))) [
  | inr met ↦ (
    update (update mem p (mem f)) f (mem p),
    ground (arith, met),
    λ i hi. swapped mem f p i hi (ground (arith, met)),
    λ a out. ground (arith, out),
  )
  | inl wide ↦
      let apart : f + 1 < p - 1 = ground (arith, wide) in
      let mem1 = update (update mem p (mem f)) f (mem p) in
      let (mem', e, turn, rest) =
        swap_ends_lem fuel (f + 1) (p - 1) mem1 (omega (arith, apart)) (omega (arith, apart)) in
      (
        mem',
        ground (arith, wide, e),
        λ i hi. elim (Bool-cases (i == 0)) [
          | inl z ↦ rest (f + i) (ground (arith, z)) ∙ swapped mem f p i hi (ground (arith, z))
          | inr some_in ↦ elim (Bool-cases (f + i == p)) [
            | inl z ↦ rest (f + i) (ground (arith, z)) ∙ swapped mem f p i hi (ground (arith, z))
            | inr inside ↦
                ap mem' (ground (arith, some_in))
                ∙ turn (i - 1) (ground (arith, some_in, inside))
                ∙ ground (arith, some_in, inside)
                ∙ ap mem {x = p - 1 - (i - 1)} {y = p - i} (ground (arith, some_in))
          ]
        ],
        λ a out. ground (arith, rest a, out),
      )
]

length-low_digits : (n val : ℕ) → length (low_digits n val) ≤ n
length-low_digits zero val = omega arith
length-low_digits (suc n) val = ground (arith, length-low_digits n (val / 10))

HoldsDigits-StandAt :
    (mem : Memory) (s : ℕ) (ds : List ℕ)
    → StandAt mem s ds
    → mem (s + length ds) ≡ 0
    → HoldsDigits mem s ds
HoldsDigits-StandAt mem s [] h z =
    let z' : mem s ≡ 0 = ap mem (omega arith) ∙ z in (omega arith, inl (omega arith))
HoldsDigits-StandAt mem s (d ∷ ds) (e, lt, h) z =
    (e, lt, HoldsDigits-StandAt mem (s + 1) ds h (ap mem (omega arith) ∙ z))

-- `itoa` in base ten, with fuel for the digits, writes a text that `skip_atoi` reads back as the
-- number, if the number plus 48, the code of '0', fits an `int`; both end at the zero behind the
-- digits.
pub itoa-skip_atoi :
    (fuel val buf : ℕ) (mem : Memory)
    → 0 < fuel
    → val < 10 ^ fuel
    → val + 48 < 2 ^ 31
    → (p : ℕ) × (mem' : Memory) × (itoa fuel val buf 10 mem ≡ some (p, mem'))
      × (mem' p ≡ 0)
      × (skip_atoi (fuel + 1) buf mem' ≡ some (val, p))
unfolding itoa
itoa-skip_atoi fuel val buf mem go lt fits =
    let ds = low_digits fuel val in
    let (mem1, e1, st, below, pos) = store_digits_lem fuel val buf mem go lt in
    let p = buf + length ds in
    let mem2 = update mem1 p 0 in
    let (mem3, e2, turn, rest) =
      swap_ends_lem fuel buf (p - 1) mem2 (omega (arith, pos))
        (omega (arith, pos, length-low_digits fuel val)) in
    let zero_there : mem3 p ≡ 0 = rest p (inr (omega (arith, pos))) ∙ ground arith in
    let turned_ds =
      StandAt-turned mem1 mem3 buf (p - 1) buf ds st (omega (arith, pos)) (omega arith)
        (λ i h. turn i h ∙ ground (arith, h, pos)) in
    let same_place : buf + length (turned ds) ≡ p = omega (arith, length-turned ds) in
    let digits =
      HoldsDigits-StandAt mem3 buf (turned ds) turned_ds (ap mem3 same_place ∙ zero_there) in
    let read =
      skip_atoi-decimal (fuel + 1) buf mem3 (turned ds) digits
        (omega (arith, length-turned ds, length-low_digits fuel val))
        (omega (arith, fits, decimal-turned fuel val lt)) in
    (
      p,
      mem3,
      ground (arith, e1, e2),
      zero_there,
      read
          ∙ ap (λ v. some (v, buf + length (turned ds))) (decimal-turned fuel val lt)
          ∙ ap (λ q. some (val, q)) same_place,
    )
