-- ===== src/Shell.antt =====
-- middleware/shell_parser/_list.c and shell.c: the commands of the shell, a singly linked list that
-- NULL ends. `strcmp` of the host's C library is a parameter. The ten SYMBOL structures of `_malloc`
-- go by their index plus one, `sym_head` by 100, and a call of a command goes to the log `ran`.
pub mod Commands
pub mod Thread
pub mod Lines
use fos.Prelude.{
  ℕ, zero, suc, ◌+◌, Bool, Option, none, some, List, [], ◌∷◌, ◌++◌, ltb, ◌==◌, if◌then◌else◌,
  update,
}
use fos.LinkedList.{Addr, null}

pub record Symbol : Type 0 where
  pub func : ℕ
  pub name : ℕ

pub record Shell : Type 0 where
  pub next : Addr → Addr
  pub symbol : Addr → Symbol
  pub temp : ℕ
  pub ran : List ℕ

abbrev pub sym_head : Addr
sym_head = 100

abbrev pub true_code : ℕ
true_code = 1

abbrev pub false_code : ℕ
false_code = 0

unfoldable pub list_init : Addr → Shell → Shell
list_init node s = record s { next = update s.next node null }

unfoldable pub list_insert : Addr → Addr → Shell → Shell
list_insert head node s =
    let next = update s.next node (s.next head) in record s { next = update next head node }

abbrev pub is_list_empty : Addr → Shell → Bool
is_list_empty node s = s.next node == null

-- `none` is a write behind the array `_malloc`.
unfoldable pub export_symbol : (func name : ℕ) → Shell → Option Shell
unfolding list_insert
export_symbol func name s =
    if ltb s.temp 10
    then some (
        list_insert sym_head (s.temp + 1) (record s {
          temp = s.temp + 1;
          symbol = update s.symbol (s.temp + 1) (record { func = func; name = name });
        }))
    else none

-- The walk of `parser` from `tmp`; `none` says that the list does not end.
unfoldable pub parser_from : (ℕ → ℕ → Bool) → ℕ → Addr → ℕ → Shell → Option (ℕ × Shell)
parser_from same_text zero tmp cmd s = none
parser_from same_text (suc rounds) tmp cmd s =
    let sym_tmp = s.next tmp in
    let rest = parser_from same_text rounds sym_tmp cmd s in
    if is_list_empty tmp s
    then some (false_code, s)
    else if same_text cmd (s.symbol sym_tmp).name
    then some (true_code, record s { ran = s.ran ++ (s.symbol sym_tmp).func ∷ [] })
    else rest

unfoldable pub parser : (ℕ → ℕ → Bool) → ℕ → ℕ → Shell → Option (ℕ × Shell)
unfolding parser_from
parser same_text fuel cmd s = parser_from same_text fuel sym_head cmd s
