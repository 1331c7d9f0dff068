-- ===== src/Shell/Commands.antt =====
-- The shell of middleware/shell_parser as a list of commands.
use fos.Prelude.{
  ℕ, zero, suc, ◌+◌, ◌<◌, ◌≤◌, ◌≡◌, ◌≢◌, Bool, Option, none, some, List, [], ◌∷◌, ◌++◌, arith,
  if◌then◌else◌, update, length, ◌∈◌,
}
use fos.LinkedList.{Addr, null}
use fos.Shell.{Shell, Symbol, sym_head, export_symbol, parser, parser_from, true_code, false_code}

-- From `h` the pointers lead through `xs` to NULL.
abbrev pub Leads : (Addr → Addr) → Addr → List Addr → Type 0
Leads next h [] = next h ≡ null
Leads next h (x ∷ xs) = (next h ≡ x) × (x ≢ null) × Leads next x xs

-- The commands: distinct from the head, and among the `temp` structures that are in use.
pub record Commands (s : Shell) (xs : List Addr) : Type 0 where
  pub leads : Leads s.next sym_head xs
  pub used : (a : Addr) → a ∈ xs → (0 < a) × (a ≤ s.temp)
  pub few : s.temp ≤ 10

Leads-frame :
    (f g : Addr → Addr) (h : Addr) (xs : List Addr)
    → ((a : Addr) → a ∈ (h ∷ xs) → g a ≡ f a)
    → Leads f h xs
    → Leads g h xs
Leads-frame f g h [] e c = ground (arith, e h)
Leads-frame f g h (x ∷ xs) e (n, ne, c) =
    (ground (arith, e h), ne, Leads-frame f g x xs (λ a i. e a (ground arith)) c)

token-Leads :
    (s : Shell) (xs : List Addr)
    → Commands s xs
    → Leads
        (update (update s.next (s.temp + 1) (s.next sym_head)) sym_head (s.temp + 1))
        sym_head
        ((s.temp + 1) ∷ xs)
token-Leads s [] c = (ground arith, omega arith, ground (arith, c.leads, c.few))
token-Leads s (x ∷ xs) c =
    let next = update (update s.next (s.temp + 1) (s.next sym_head)) sym_head (s.temp + 1) in
    let (n, ne, rest) = c.leads in
    (
      ground arith,
      omega arith,
      (
        ground (arith, n, c.few),
        ne,
        Leads-frame s.next next x xs (λ a i. ground (arith, c.used a i, c.few)) rest,
      ),
    )

-- While one of the ten structures is left, a command goes to the front of the list.
pub export_symbol-first :
    (func name : ℕ) (s : Shell) (xs : List Addr)
    → Commands s xs
    → s.temp < 10
    → (s' : Shell) × (export_symbol func name s ≡ some s')
      × Commands s' ((s.temp + 1) ∷ xs)
      × (s'.symbol (s.temp + 1) ≡ record { func = func; name = name })
      × ((a : Addr) → a ∈ xs → s'.symbol a ≡ s.symbol a)
unfolding export_symbol
export_symbol-first func name s xs c room =
    let token = s.temp + 1 in
    let next = update (update s.next token (s.next sym_head)) sym_head token in
    (
      record s {
        next = next;
        temp = s.temp + 1;
        symbol = update s.symbol token (record { func = func; name = name });
      },
      ground arith,
      record {
        leads = token-Leads s xs c;
        used = λ a i. ground (arith, c.used a);
        few = omega arith;
      },
      ground arith,
      λ a i. ground (arith, c.used a),
    )

-- With the ten structures in use, another command is written behind the array.
pub export_symbol-outside :
    (func name : ℕ) (s : Shell) → 10 ≤ s.temp → export_symbol func name s ≡ none
unfolding export_symbol
export_symbol-outside func name s h = ground arith

-- The first command of a name.
unfoldable pub first_command : (ℕ → ℕ → Bool) → (Addr → Symbol) → ℕ → List Addr → Option Addr
first_command same_text symbol cmd [] = none
first_command same_text symbol cmd (x ∷ xs) =
    if same_text cmd (symbol x).name then some x else first_command same_text symbol cmd xs

parser_from-first :
    (same_text : ℕ → ℕ → Bool) (rounds tmp cmd : ℕ) (s : Shell) (xs : List Addr)
    → Leads s.next tmp xs
    → length xs < rounds
    → parser_from same_text rounds tmp cmd s
      ≡ some (elim (first_command same_text s.symbol cmd xs) [
        | none ↦ (false_code, s)
        | some x ↦ (true_code, record s { ran = s.ran ++ (s.symbol x).func ∷ [] })
      ])
unfolding parser_from first_command
parser_from-first same_text zero tmp cmd s xs c f = absurd (omega arith)
parser_from-first same_text (suc rounds) tmp cmd s [] c f = ground arith
parser_from-first same_text (suc rounds) tmp cmd s (x ∷ xs) (n, ne, c) f =
    ground (arith, parser_from-first same_text rounds x cmd s xs c (omega arith))

-- The parser ends. It runs the function of the first command of the name, and only that, and
-- returns TRUE; without such a command it runs nothing and returns FALSE.
pub parser-first :
    (same_text : ℕ → ℕ → Bool) (fuel cmd : ℕ) (s : Shell) (xs : List Addr)
    → Commands s xs
    → length xs < fuel
    → parser same_text fuel cmd s
      ≡ some (elim (first_command same_text s.symbol cmd xs) [
        | none ↦ (false_code, s)
        | some x ↦ (true_code, record s { ran = s.ran ++ (s.symbol x).func ∷ [] })
      ])
unfolding parser
parser-first same_text fuel cmd s xs c f =
    parser_from-first same_text fuel sym_head cmd s xs c.leads f
