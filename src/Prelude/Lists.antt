-- ===== src/Prelude/Lists.antt =====
-- Lists measured and searched by native numbers.
use Prim.Native.Nat.{ℕ, zero, suc, ◌+◌, ◌<◌, ◌≤◌}
use mathlib.Core.Path.{◌≡◌, refl}
use mathlib.Core.Logic.{◌⊎◌, inl, inr}
use mathlib.Core.Bool.{Bool, true, false, ◌||◌}
use mathlib.Core.Option.{Option, none, some}
use mathlib.Core.List.{List, [], ◌∷◌, ◌++◌}
use native.Mathlib.Omega.{arith}
use fos.Prelude.Tests.{◌==◌, if◌then◌else◌}

module _ {ℓ} {A : Type ℓ} where
  abbrev pub length : List A → ℕ
  length [] = 0
  length (x ∷ xs) = suc (length xs)

  abbrev pub get_elem? : List A → ℕ → Option A
  get_elem? [] i = none
  get_elem? (x ∷ xs) zero = some x
  get_elem? (x ∷ xs) (suc i) = get_elem? xs i

  abbrev pub get_or : List A → ℕ → A → A
  get_or [] i d = d
  get_or (x ∷ xs) zero d = x
  get_or (x ∷ xs) (suc i) d = get_or xs i d

  abbrev pub is_nil : List A → Bool
  is_nil [] = true
  is_nil (x ∷ xs) = false

  pub List-cases : (xs : List A) → (xs ≡ []) ⊎ ((y : A) × (ys : List A) × (xs ≡ y ∷ ys))
  List-cases [] = inl refl
  List-cases (x ∷ xs) = inr (x, xs, refl)

  pub length-append : (xs ys : List A) → length (xs ++ ys) ≡ length xs + length ys
  length-append [] ys = omega arith
  length-append (x ∷ xs) ys = omega (arith, length-append xs ys)

-- Whether a number is in a list.
abbrev pub has : ℕ → List ℕ → Bool
has a [] = false
has a (x ∷ xs) = (a == x) || has a xs

infix 40 ◌∈◌ ◌∉◌
abbrev pub ◌∈◌ : ℕ → List ℕ → Type 0
a ∈ xs = has a xs ≡ true

abbrev pub ◌∉◌ : ℕ → List ℕ → Type 0
a ∉ xs = has a xs ≡ false

-- The list less the first occurrence of a number.
abbrev pub remove : ℕ → List ℕ → List ℕ
remove a [] = []
remove a (x ∷ xs) = if a == x then xs else x ∷ remove a xs

pub has-append : (a : ℕ) (xs ys : List ℕ) → has a (xs ++ ys) ≡ (has a xs || has a ys)
has-append a [] ys = refl
has-append a (x ∷ xs) ys = ground (arith, has-append a xs ys)

pub has-remove : (a b : ℕ) (xs : List ℕ) → b ∈ remove a xs → b ∈ xs
has-remove a b [] h = h
has-remove a b (x ∷ xs) h = ground (arith, has-remove a b xs)

pub has-remove_other : (a b : ℕ) (xs : List ℕ) → (b == a) ≡ false → b ∈ xs → b ∈ remove a xs
has-remove_other a b [] ne h = absurd (ground arith)
has-remove_other a b (x ∷ xs) ne h = ground (arith, has-remove_other a b xs)

pub remove_not_mem : (a : ℕ) (xs : List ℕ) → a ∉ xs → remove a xs ≡ xs
remove_not_mem a [] h = refl
remove_not_mem a (x ∷ xs) h = ground (arith, remove_not_mem a xs)

pub remove-append : (a : ℕ) (xs : List ℕ) → a ∉ xs → remove a (xs ++ a ∷ []) ≡ xs
remove-append a [] h = ground arith
remove-append a (x ∷ xs) h = ground (arith, remove-append a xs)

pub is_nil-mem : (a : ℕ) (xs : List ℕ) → a ∈ xs → is_nil xs ≡ false
is_nil-mem a [] h = absurd (ground arith)
is_nil-mem a (x ∷ xs) h = refl

pub length-remove-lt : (a : ℕ) (xs : List ℕ) → a ∈ xs → length (remove a xs) < length xs
length-remove-lt a [] h = absurd (ground arith)
length-remove-lt a (x ∷ xs) h = ground (arith, length-remove-lt a xs)

pub length-remove_lower : (a : ℕ) (xs : List ℕ) → length (remove a xs) ≤ length xs
length-remove_lower a [] = omega arith
length-remove_lower a (x ∷ xs) = ground (arith, length-remove_lower a xs)
