-- ===== src/Libc.antt =====
-- libc/lib.c: the C library's routines over a memory of bytes. A loop over a string takes fuel;
-- `none` says that it ran out, as on a string with no end.
pub mod Bytes
pub mod Strings
use Prim.Native.Nat.{bit_and, bit_xor}
use fos.Prelude.{
  ℕ, zero, suc, ◌+◌, ◌-◌, ◌*◌, ◌/◌, ◌%◌, ◌^◌, Bool, Option, none, some, ◌&&◌, ltb, leb, ◌==◌,
  if◌then◌else◌, update,
}

abbrev pub Memory : Type 0
Memory = ℕ → ℕ

-- `while (n) { *r1++ = *r2++; --n; }`
unfoldable pub fos_memcpy : ℕ → ℕ → ℕ → Memory → Memory
fos_memcpy s1 s2 zero mem = mem
fos_memcpy s1 s2 (suc n) mem = fos_memcpy (s1 + 1) (s2 + 1) n (update mem s1 (mem s2))

-- `for (p = s; *p; p++); return p - s;`
unfoldable pub strlen_loop : ℕ → ℕ → ℕ → Memory → Option ℕ
strlen_loop zero p n mem = none
strlen_loop (suc fuel) p n mem =
    let rest = strlen_loop fuel (p + 1) (n + 1) mem in if mem p == 0 then some n else rest

unfoldable pub fos_strlen : ℕ → ℕ → Memory → Option ℕ
unfolding strlen_loop
fos_strlen fuel s mem = strlen_loop fuel s 0 mem

-- The address of the first byte `c` among `n`, if there is one; `c` is cut to a byte.
unfoldable pub fos_memchr : ℕ → ℕ → ℕ → Memory → Option ℕ
fos_memchr s c zero mem = none
fos_memchr s c (suc n) mem =
    let rest = fos_memchr (s + 1) c n mem in if mem s == c % 256 then some s else rest

-- The shift register of `fos_rand`, an `unsigned long` of 32 bits, and how often it has stepped.
-- `0 - (lfsr & 1u)` is all ones or zero.
pub record Rand : Type 0 where
  pub lfsr : ℕ
  pub period : ℕ

abbrev pub rand_start : Rand
rand_start = record { lfsr = 0x14b6bc3c; period = 0 }

unfoldable pub fos_rand : Rand → ℕ × Rand
fos_rand r =
    let low = bit_and ((2 ^ 32 - r.lfsr % 2) % 2 ^ 32) 0xd0000001 in
    let lfsr = bit_xor (r.lfsr / 2) low in (lfsr, record { lfsr = lfsr; period = r.period + 1 })

unfoldable pub fos_memset : ℕ → ℕ → ℕ → Memory → Memory
fos_memset xs byte zero mem = mem
fos_memset xs byte (suc count) mem = fos_memset (xs + 1) byte count (update mem xs byte)

-- The result of `fos_strcmp`: -1, 0 or 1.
pub data Compared : Type 0 where
  less same greater : Compared

unfoldable pub fos_strcmp : ℕ → ℕ → ℕ → Memory → Option Compared
fos_strcmp zero cs ct mem = none
fos_strcmp (suc fuel) cs ct mem =
    let c1 = mem cs in
    let c2 = mem ct in
    let rest = fos_strcmp fuel (cs + 1) (ct + 1) mem in
    if c1 == c2
    then (if c1 == 0 then some same else rest)
    else some (if ltb c1 c2 then less else greater)

-- `((unsigned)((c) - '0') < 10)`
abbrev pub isdigit : ℕ → Bool
isdigit c = ltb ((c + 2 ^ 32 - 48) % 2 ^ 32) 10

-- `skip_atoi` reads digits from `*s`, and leaves `*s` behind them. The sum is an `int`: where
-- `i * 10 + c` leaves its 31 bits, before the '0' is taken off, C defines no result, and it is `none`.
unfoldable pub skip_atoi_loop : ℕ → ℕ → ℕ → Memory → Option (ℕ × ℕ)
skip_atoi_loop zero s i mem = none
skip_atoi_loop (suc fuel) s i mem =
    let sum = i * 10 + mem s in
    let rest = skip_atoi_loop fuel (s + 1) (sum - 48) mem in
    if isdigit (mem s) then (if ltb sum (2 ^ 31) then rest else none) else some (i, s)

unfoldable pub skip_atoi : ℕ → ℕ → Memory → Option (ℕ × ℕ)
unfolding skip_atoi_loop
skip_atoi fuel s mem = skip_atoi_loop fuel s 0 mem

-- The remainder, and the quotient that goes to `*n`. Any base but 10 counts as 16.
unfoldable pub divide : ℕ → ℕ → ℕ × ℕ
divide n base =
    if base == 10 then (n % 2 ^ 32 % 10, n % 2 ^ 32 / 10) else (n % 2 ^ 32 % 16, n % 2 ^ 32 / 16)
