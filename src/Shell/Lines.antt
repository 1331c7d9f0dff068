-- ===== src/Shell/Lines.antt =====
-- The lines that the task of middleware/shell_parser/example.c reads.
use fos.Prelude.{
  ℕ, ◌+◌, ◌<◌, ◌≤◌, ◌≡◌, refl, Bool, none, some, List, [], ◌∷◌, ◌++◌, arith, update, length, ◌∉◌,
}
use fos.Kernel.{◌>>=◌}
use fos.Task.{Words}
use fos.Libc.Strings.{HoldsString}
use fos.Shell.{Shell, parser}
use fos.Shell.Thread.{read_line, shell_round, buff_size, newline}

-- The buffer with a line from `i` on, and `last` behind it.
unfoldable pub typed : List ℕ → ℕ → ℕ → Words → Words
typed [] last i buff = update buff i last
typed (x ∷ xs) last i buff = typed xs last (i + 1) (update buff i x)

read_line-typed :
    (xs rest : List ℕ) (i : ℕ) (buff : Words)
    → newline ∉ xs
    → i + length xs < buff_size
    → read_line (xs ++ newline ∷ rest) i buff ≡ some (i + length xs, typed xs newline i buff, rest)
unfolding read_line typed
read_line-typed [] rest i buff out room = ground arith
read_line-typed (x ∷ xs) rest i buff out room =
    ground (arith, read_line-typed xs rest (i + 1) (update buff i x))

-- A line that leaves no place for its newline in the buffer.
read_line-long :
    (xs rest : List ℕ) (i : ℕ) (buff : Words)
    → newline ∉ xs
    → buff_size ≤ i + length xs
    → read_line (xs ++ newline ∷ rest) i buff ≡ none
unfolding read_line
read_line-long [] rest i buff out long = ground arith
read_line-long (x ∷ xs) rest i buff out long =
    ground (arith, read_line-long xs rest (i + 1) (update buff i x))

typed-before : (xs : List ℕ) (last i a : ℕ) (buff : Words) → a < i → typed xs last i buff a ≡ buff a
unfolding typed
typed-before [] last i a buff lt = ground arith
typed-before (x ∷ xs) last i a buff lt =
    ground (arith, typed-before xs last (i + 1) a (update buff i x) (omega arith))

typed-HoldsString :
    (xs : List ℕ) (i e : ℕ) (buff : Words)
    → 0 ∉ xs
    → e ≡ i + length xs
    → HoldsString (update (typed xs newline i buff) e 0) i xs
unfolding typed
typed-HoldsString [] i e buff out same = ground arith
typed-HoldsString (x ∷ xs) i e buff out same = (
  ground (arith, typed-before xs newline (i + 1) i (update buff i x) (omega arith)),
  λ z. ground arith,
  typed-HoldsString xs (i + 1) e (update buff i x) (ground arith) (omega arith),
)

typed-first : (x : ℕ) (xs : List ℕ) (buff : Words) → typed (x ∷ xs) newline 0 buff 0 ≡ x
unfolding typed
typed-first x xs buff = ground (arith, typed-before xs newline 1 0 (update buff 0 x) (omega arith))

-- A line of 1 to 127 bytes, none of them zero or a newline, reaches the parser as that string; the
-- round returns exactly if the parser does, with the rest of the input, the buffer cleared by
-- `memset`, and what the command did.
pub shell_round-line :
    (strcmp : Words → ℕ → Bool) (memset : ℕ → ℕ → ℕ → Words → Words) (fuel x : ℕ) (xs rest : List ℕ)
    (buff : Words) (s : Shell)
    → newline ∉ (x ∷ xs)
    → 0 ∉ (x ∷ xs)
    → length (x ∷ xs) < buff_size
    → (line : Words) × HoldsString line 0 (x ∷ xs)
      × (shell_round strcmp memset fuel (x ∷ xs ++ newline ∷ rest) buff s ≡ (
          parser (λ cmd name. strcmp line name) fuel 0 s >>= λ q.
          some (rest, memset 0 0 buff_size line, q.1)))
unfolding shell_round
shell_round-line strcmp memset fuel x xs rest buff s out no_zero room = (
  update (typed (x ∷ xs) newline 0 buff) (length (x ∷ xs)) 0,
  typed-HoldsString (x ∷ xs) 0 (length (x ∷ xs)) buff no_zero (omega arith),
  ground (
    arith,
    read_line-typed (x ∷ xs) rest 0 buff out (omega (arith, room)),
    typed-first x xs buff,
  ),
)

-- A line of 128 bytes or more is written behind the buffer.
pub shell_round-long :
    (strcmp : Words → ℕ → Bool) (memset : ℕ → ℕ → ℕ → Words → Words) (fuel : ℕ) (xs rest : List ℕ)
    (buff : Words) (s : Shell)
    → newline ∉ xs
    → buff_size ≤ length xs
    → shell_round strcmp memset fuel (xs ++ newline ∷ rest) buff s ≡ none
unfolding shell_round
shell_round-long strcmp memset fuel xs rest buff s out long =
    rw (read_line-long xs rest 0 buff out (omega (arith, long))) refl
