-- ===== src/Libc/Strings.antt =====
-- `fos_strlen`, `fos_strcmp` and `skip_atoi` of libc/lib.c against the strings in memory.
use fos.Prelude.{
  ℕ, zero, suc, ◌+◌, ◌-◌, ◌*◌, ◌^◌, ◌<◌, ◌≤◌, ◌≡◌, ◌≢◌, ◌⊎◌, refl, some, List, [], ◌∷◌, arith, ltb,
  ◌==◌, if◌then◌else◌, length,
}
use fos.Libc.{
  Memory, fos_strlen, strlen_loop, fos_strcmp, Compared, less, same, greater, skip_atoi,
  skip_atoi_loop,
}

-- At `s` stand the bytes `xs`, none of them zero, and a zero.
abbrev pub HoldsString : Memory → ℕ → List ℕ → Type 0
HoldsString mem s [] = mem s ≡ 0
HoldsString mem s (x ∷ xs) = (mem s ≡ x) × (x ≢ 0) × HoldsString mem (s + 1) xs

strlen_loop-length :
    (fuel s n : ℕ) (mem : Memory) (xs : List ℕ)
    → HoldsString mem s xs
    → length xs < fuel
    → strlen_loop fuel s n mem ≡ some (n + length xs)
unfolding strlen_loop
strlen_loop-length zero s n mem xs h f = absurd (omega arith)
strlen_loop-length (suc fuel) s n mem [] h f = ground arith
strlen_loop-length (suc fuel) s n mem (x ∷ xs) (e, nz, h) f =
    ground (arith, strlen_loop-length fuel (s + 1) (n + 1) mem xs h (omega arith))

-- `fos_strlen` ends on a string, with its length.
pub fos_strlen-length :
    (fuel s : ℕ) (mem : Memory) (xs : List ℕ)
    → HoldsString mem s xs
    → length xs < fuel
    → fos_strlen fuel s mem ≡ some (length xs)
unfolding fos_strlen
fos_strlen-length fuel s mem xs h f = ground (arith, strlen_loop-length fuel s 0 mem xs h f)

-- The order of strings by their first difference, a prefix coming first.
unfoldable pub compare_bytes : List ℕ → List ℕ → Compared
compare_bytes [] [] = same
compare_bytes [] (y ∷ ys) = less
compare_bytes (x ∷ xs) [] = greater
compare_bytes (x ∷ xs) (y ∷ ys) =
    if x == y then compare_bytes xs ys else if ltb x y then less else greater

-- `fos_strcmp` ends on two strings, and orders them by their first difference.
pub fos_strcmp-compare_bytes :
    (fuel s t : ℕ) (mem : Memory) (xs ys : List ℕ)
    → HoldsString mem s xs
    → HoldsString mem t ys
    → length xs < fuel
    → fos_strcmp fuel s t mem ≡ some (compare_bytes xs ys)
unfolding fos_strcmp compare_bytes
fos_strcmp-compare_bytes zero s t mem xs ys h g f = absurd (omega arith)
fos_strcmp-compare_bytes (suc fuel) s t mem [] [] h g f = ground arith
fos_strcmp-compare_bytes (suc fuel) s t mem [] (y ∷ ys) h (e, nz, g) f = ground arith
fos_strcmp-compare_bytes (suc fuel) s t mem (x ∷ xs) [] (e, nz, h) g f = ground arith
fos_strcmp-compare_bytes (suc fuel) s t mem (x ∷ xs) (y ∷ ys) (e, nz, h) (e', nz', g) f =
    ground (arith, fos_strcmp-compare_bytes fuel (s + 1) (t + 1) mem xs ys h g (omega arith))

-- Two strings compare as the same exactly when they are.
pub compare_bytes-same : (xs ys : List ℕ) → compare_bytes xs ys ≡ same → xs ≡ ys
unfolding compare_bytes
compare_bytes-same [] [] e = refl
compare_bytes-same [] (y ∷ ys) e = absurd (ground arith)
compare_bytes-same (x ∷ xs) [] e = absurd (ground arith)
compare_bytes-same (x ∷ xs) (y ∷ ys) e = ground (arith, compare_bytes-same xs ys)

-- At `s` stand the decimal digits `ds`, and then a byte that is no digit.
abbrev pub HoldsDigits : Memory → ℕ → List ℕ → Type 0
HoldsDigits mem s [] = (mem s < 256) × ((mem s < 48) ⊎ (57 < mem s))
HoldsDigits mem s (d ∷ ds) = (mem s ≡ 48 + d) × (d < 10) × HoldsDigits mem (s + 1) ds

-- The number that decimal digits spell behind `i`.
unfoldable pub decimal : ℕ → List ℕ → ℕ
decimal i [] = i
decimal i (d ∷ ds) = decimal (i * 10 + d) ds

decimal-grows : (i : ℕ) (ds : List ℕ) → i ≤ decimal i ds
unfolding decimal
decimal-grows i [] = omega arith
decimal-grows i (d ∷ ds) = omega (arith, decimal-grows (i * 10 + d) ds)

skip_atoi_loop-decimal :
    (fuel s i : ℕ) (mem : Memory) (ds : List ℕ)
    → HoldsDigits mem s ds
    → length ds < fuel
    → decimal i ds + 48 < 2 ^ 31
    → skip_atoi_loop fuel s i mem ≡ some (decimal i ds, s + length ds)
unfolding skip_atoi_loop decimal
skip_atoi_loop-decimal zero s i mem ds h f fits = absurd (omega arith)
skip_atoi_loop-decimal (suc fuel) s i mem [] h f fits = ground arith
skip_atoi_loop-decimal (suc fuel) s i mem (d ∷ ds) (e, lt, h) f fits =
    let step : i * 10 + mem s - 48 ≡ i * 10 + d = omega arith in
    let small : i * 10 + mem s < 2 ^ 31 = omega (arith, e, fits, decimal-grows (i * 10 + d) ds) in
    ground (
      arith,
      step,
      small,
      skip_atoi_loop-decimal fuel (s + 1) (i * 10 + d) mem ds h (omega arith) fits,
    )

-- `skip_atoi` ends, with the number that the digits spell and the place behind them, if the number
-- plus the code of '0' fits an `int`.
pub skip_atoi-decimal :
    (fuel s : ℕ) (mem : Memory) (ds : List ℕ)
    → HoldsDigits mem s ds
    → length ds < fuel
    → decimal 0 ds + 48 < 2 ^ 31
    → skip_atoi fuel s mem ≡ some (decimal 0 ds, s + length ds)
unfolding skip_atoi
skip_atoi-decimal fuel s mem ds h f fits = skip_atoi_loop-decimal fuel s 0 mem ds h f fits
