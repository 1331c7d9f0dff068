-- ===== src/Libc/Bytes.antt =====
-- `fos_memcpy`, `fos_memset` and `fos_memchr` of libc/lib.c.
use fos.Prelude.{
  ap, ◌∙◌, inl, inr, Bool-cases, ℕ, zero, suc, ◌+◌, ◌-◌, ◌<◌, ◌≤◌, ◌≡◌, ◌≢◌, ◌⊎◌, refl, false, ◌&&◌,
  none, some, arith, ltb, leb, ◌==◌, if◌then◌else◌, update, ◌%◌,
}
use fos.Libc.{Memory, fos_memcpy, fos_memset, fos_memchr}

-- `fos_memset` writes the byte to each of `count` places, and nowhere else.
pub fos_memset_lem :
    (xs byte count : ℕ) (mem : Memory) (a : ℕ)
    → fos_memset xs byte count mem a ≡ (if leb xs a && ltb a (xs + count) then byte else mem a)
unfolding fos_memset
fos_memset_lem xs byte zero mem a = ground arith
fos_memset_lem xs byte (suc count) mem a =
    ground (arith, fos_memset_lem (xs + 1) byte count (update mem xs byte) a)

-- `fos_memcpy` copies each of `n` bytes as it was before the call, and writes nowhere else, if the
-- target does not start inside the source, past its first byte.
pub fos_memcpy_lem :
    (s1 s2 n : ℕ) (mem : Memory) (a : ℕ)
    → (s1 ≤ s2) ⊎ (s2 + n ≤ s1)
    → fos_memcpy s1 s2 n mem a ≡ (if leb s1 a && ltb a (s1 + n) then mem (s2 + (a - s1)) else mem a)
unfolding fos_memcpy
fos_memcpy_lem s1 s2 zero mem a h = ground arith
fos_memcpy_lem s1 s2 (suc n) mem a h =
    ground (arith, fos_memcpy_lem (s1 + 1) (s2 + 1) n (update mem s1 (mem s2)) a (omega arith))

-- What holds of the places behind the first holds of all.
absent :
    (s x n : ℕ) (mem : Memory)
    → (mem s == x) ≡ false
    → ((i : ℕ) → i < n → mem (s + 1 + i) ≢ x)
    → (i : ℕ) → i < suc n
    → mem (s + i) ≢ x
absent s x n mem miss rest zero h z = ground (arith, miss)
absent s x n mem miss rest (suc i) h z =
    let e : s + 1 + i ≡ s + suc i = omega arith in rest i (omega arith) (ap mem e ∙ z)

-- `fos_memchr` finds the first place of the byte, exactly when there is one.
pub fos_memchr-first :
    (s c n : ℕ) (mem : Memory)
    → ((fos_memchr s c n mem ≡ none) × ((i : ℕ) → i < n → mem (s + i) ≢ c % 256))
      ⊎ ((i : ℕ) × (fos_memchr s c n mem ≡ some (s + i))
          × (i < n)
          × (mem (s + i) ≡ c % 256)
          × ((j : ℕ) → j < i → mem (s + j) ≢ c % 256))
unfolding fos_memchr
fos_memchr-first s c zero mem = inl (refl, λ i h. absurd (omega arith))
fos_memchr-first s c (suc n) mem = elim (Bool-cases (mem s == c % 256)) [
  | inl hit ↦
      inr (0, ground (arith, hit), omega arith, ground (arith, hit), λ j h. absurd (omega arith))
  | inr miss ↦ elim (fos_memchr-first (s + 1) c n mem) [
    | inl (e, no_i) ↦ inl (ground (arith, miss, e), absent s (c % 256) n mem miss no_i)
    | inr (i, e, lt, at, before) ↦ inr (
      i + 1,
      ground (arith, miss, e),
      omega arith,
      ground (arith, at),
      λ j h. absent s (c % 256) i mem miss before j (omega arith),
    )
  ]
]
