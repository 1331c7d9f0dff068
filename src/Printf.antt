-- ===== src/Printf.antt =====
-- libc/printf.c. Memory is a function of bytes, what `putc` writes is a list, and the arguments of
-- `print` are 32-bit words. `none` is a loop or a string without an end, a missing argument, or a
-- write behind the 20 bytes of `store`. The two `do` loops of `itoa` take fuel.
pub mod Digits
use fos.Prelude.{
  ℕ, zero, suc, ◌+◌, ◌-◌, ◌/◌, ◌%◌, ◌^◌, Option, none, some, List, [], ◌∷◌, ◌++◌, ltb, ◌==◌, ◌||◌,
  if◌then◌else◌, update,
}
use fos.Kernel.{◌>>=◌}
use fos.Libc.{Memory}

-- A letter from ten on, and a digit below.
unfoldable pub ascii_digit : ℕ → ℕ
ascii_digit digval = if ltb 9 digval then digval - 10 + 97 else digval + 48

-- The first loop: the digits from `p` on, the lowest first, and the place behind them.
unfoldable pub store_digits : ℕ → (val radix p : ℕ) → Memory → Option (ℕ × Memory)
unfolding ascii_digit
store_digits zero val radix p mem = none
store_digits (suc fuel) val radix p mem =
    let mem' = update mem p (ascii_digit (val % radix)) in
    let rest = store_digits fuel (val / radix) radix (p + 1) mem' in
    if val / radix == 0 then some (p + 1, mem') else rest

-- The second loop: it swaps the ends until they meet.
unfoldable pub swap_ends : ℕ → (firstdig p : ℕ) → Memory → Option Memory
swap_ends zero firstdig p mem = none
swap_ends (suc fuel) firstdig p mem =
    let mem' = update (update mem p (mem firstdig)) firstdig (mem p) in
    let rest = swap_ends fuel (firstdig + 1) (p - 1) mem' in
    if ltb (firstdig + 1) (p - 1) then rest else some mem'

-- The memory, and the place of the zero behind the digits.
unfoldable pub itoa : ℕ → (val buf radix : ℕ) → Memory → Option (ℕ × Memory)
unfolding store_digits swap_ends
itoa fuel val buf radix mem = do
  (p, mem) ← store_digits fuel val radix buf mem
  mem ← swap_ends fuel buf (p - 1) (update mem p 0)
  some (p, mem)

-- An `int` as an `unsigned long` of 64 bits.
unfoldable pub unsigned_long : ℕ → ℕ
unsigned_long i = if ltb i (2 ^ 31) then i else i + 2 ^ 64 - 2 ^ 32

-- `while( *str != '\0') putc(*str++, stdout);`
unfoldable pub put_string : ℕ → ℕ → Memory → Option (List ℕ)
put_string zero str mem = none
put_string (suc fuel) str mem =
    let rest = (put_string fuel (str + 1) mem >>= λ xs. some (mem str ∷ xs)) in
    if mem str == 0 then some [] else rest

-- The cases of `%d`, `%i`, `%o` and `%x`, with the local array `store` at that address.
unfoldable pub put_number : ℕ → (store i radix : ℕ) → Memory → Option (List ℕ)
unfolding itoa unsigned_long put_string
put_number fuel store i radix mem = do
  (p, mem) ← itoa fuel (unsigned_long i) store radix mem
  if ltb p (store + 20) then put_string fuel store mem else none

-- A conversion: what it writes, and the arguments that are left.
unfoldable pub convert : ℕ → (store c : ℕ) → List ℕ → Memory → Option (List ℕ × List ℕ)
unfolding put_number
convert fuel store c [] mem =
    if c == 99 || (c == 100 || (c == 105 || (c == 111 || (c == 120 || c == 115))))
    then none
    else some ([], [])
convert fuel store c (x ∷ arg) mem =
    if c == 99
    then some (x % 256 ∷ [], arg)
    else if c == 100 || c == 105
    then (put_number fuel store x 10 mem >>= λ out. some (out, arg))
    else if c == 111
    then (put_number fuel store x 8 mem >>= λ out. some (out, arg))
    else if c == 120
    then (put_number fuel store x 16 mem >>= λ out. some (out, arg))
    else if c == 115
    then (put_string fuel x mem >>= λ out. some (out, arg))
    else some ([], x ∷ arg)

-- The loop over the format, over the rounds left; 37 is '%'.
unfoldable pub print : ℕ → (rounds store format : ℕ) → List ℕ → Memory → Option (List ℕ)
unfolding convert
print fuel zero store format arg mem = none
print fuel (suc rounds) store format arg mem =
    let converted =
      (convert fuel store (mem (format + 1)) arg mem >>= λ q.
      print fuel rounds store (format + 2) q.1 mem >>= λ more. some (q.0 ++ more)) in
    let plain =
      (print fuel rounds store (format + 1) arg mem >>= λ more. some (mem format ∷ more)) in
    if mem format == 0 then some [] else if mem format == 37 then converted else plain
