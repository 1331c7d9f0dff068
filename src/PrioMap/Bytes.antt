-- ===== src/PrioMap/Bytes.antt =====
-- The bits of a byte: facts that are checked at each of the 256 values.
use Prim.Native.Nat.{bit_and, bit_or}
use fos.Prelude.{
  ℕ, zero, suc, ◌-◌, ◌/◌, ◌%◌, ◌^◌, ◌<◌, ◌≡◌, ◌≢◌, refl, Bool, true, false, not, ◌&&◌, ◌||◌, arith,
  ltb, ◌==◌, get_or,
}
use fos.PrioMap.{bitmap}

-- Bit j of x.
unfoldable pub test_bit : ℕ → ℕ → Bool
test_bit x j = x / 2 ^ j % 2 == 1

unfoldable pub eqb : Bool → Bool → Bool
eqb true b = b
eqb false b = not b

pub eqb_sound : (a b : Bool) → eqb a b ≡ true → a ≡ b
unfolding eqb
eqb_sound a b h = ground arith

-- A test passes at each of the numbers below the bound.
unfoldable pub each : (ℕ → Bool) → ℕ → Bool
each test zero = true
each test (suc bound) = each test bound && test bound

pub each-at : (test : ℕ → Bool) (i bound : ℕ) → i < bound → each test bound ≡ true → test i ≡ true
unfolding each
each-at test i zero below e = absurd (omega arith)
each-at test i (suc bound) below e = ground (arith, each-at test i bound)

lowest_test : ℕ → Bool
lowest_test x =
    x == 0
    || (ltb (get_or bitmap x 0) 8
        && (test_bit x (get_or bitmap x 0) && each (λ j. not (test_bit x j)) (get_or bitmap x 0)))

lowest_table : each lowest_test 256 ≡ true
unfolding each lowest_test test_bit bitmap
lowest_table = refl

-- The table gives the lowest bit of a byte that has one.
pub bitmap-lowest :
    (x : ℕ)
    → x < 256
    → x ≢ 0
    → (get_or bitmap x 0 < 8)
      × (test_bit x (get_or bitmap x 0) ≡ true)
      × ((j : ℕ) → j < get_or bitmap x 0 → test_bit x j ≡ false)
unfolding lowest_test
bitmap-lowest x h ne = (
  ground (arith, at_x),
  ground (arith, at_x),
  λ j k. ground (
    arith,
    at_x,
    each-at (λ j. not (test_bit x j)) j (get_or bitmap x 0) k (ground (arith, at_x)),
  ),
)
  where
    at_x : lowest_test x ≡ true
    at_x = each-at lowest_test x 256 h lowest_table

or_test : ℕ → ℕ → ℕ → Bool
or_test x a j =
    ltb (bit_or x (2 ^ a)) 256 && eqb (test_bit (bit_or x (2 ^ a)) j) ((j == a) || test_bit x j)

or_table : each (λ x. each (λ a. each (or_test x a) 8) 8) 256 ≡ true
unfolding each or_test test_bit eqb
or_table = refl

-- Setting bit a sets that bit and no other.
pub test_bit-or :
    (x a j : ℕ)
    → x < 256
    → a < 8
    → j < 8
    → (bit_or x (2 ^ a) < 256) × (test_bit (bit_or x (2 ^ a)) j ≡ ((j == a) || test_bit x j))
unfolding or_test
test_bit-or x a j hx ha hj = ground (
  arith,
  each-at (or_test x a) j 8 hj (
      each-at (λ a. each (or_test x a) 8) a 8 ha
        (each-at (λ x. each (λ a. each (or_test x a) 8) 8) x 256 hx or_table)),
  eqb_sound (test_bit (bit_or x (2 ^ a)) j) ((j == a) || test_bit x j),
)

and_test : ℕ → ℕ → ℕ → Bool
and_test x a j =
    ltb (bit_and x (2 ^ 32 - 1 - 2 ^ a)) 256
    && eqb (test_bit (bit_and x (2 ^ 32 - 1 - 2 ^ a)) j) (not (j == a) && test_bit x j)

and_table : each (λ x. each (λ a. each (and_test x a) 8) 8) 256 ≡ true
unfolding each and_test test_bit eqb
and_table = refl

-- Clearing bit a clears that bit and no other.
pub test_bit-and :
    (x a j : ℕ)
    → x < 256
    → a < 8
    → j < 8
    → (bit_and x (2 ^ 32 - 1 - 2 ^ a) < 256)
      × (test_bit (bit_and x (2 ^ 32 - 1 - 2 ^ a)) j ≡ (not (j == a) && test_bit x j))
unfolding and_test
test_bit-and x a j hx ha hj = ground (
  arith,
  each-at (and_test x a) j 8 hj (
      each-at (λ a. each (and_test x a) 8) a 8 ha
        (each-at (λ x. each (λ a. each (and_test x a) 8) 8) x 256 hx and_table)),
  eqb_sound (test_bit (bit_and x (2 ^ 32 - 1 - 2 ^ a)) j) (not (j == a) && test_bit x j),
)

zero_table : each (λ j. not (test_bit 0 j)) 8 ≡ true
unfolding each test_bit
zero_table = refl

-- No bit of zero is set.
pub test_bit-zero : (j : ℕ) → j < 8 → test_bit 0 j ≡ false
test_bit-zero j h = ground (arith, each-at (λ j. not (test_bit 0 j)) j 8 h zero_table)
