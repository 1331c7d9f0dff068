-- ===== src/LinkedList.antt =====
-- kernel/list.c and kernel/include/list.h: the intrusive doubly linked list of the kernel.
-- A LIST node is named by its address, and the memory of all nodes is the record `Links`. Every
-- operation takes the memory and returns the new one. A list runs from its head along `next`; the
-- last node points to itself. The walk of `list_insert_behind` takes fuel, and `none` says that it
-- ran out: a list that never ends.
pub mod Chain
pub mod Shape
use fos.Prelude.{ℕ, zero, suc, Bool, Option, none, some, ◌==◌, if◌then◌else◌, update}
use mathlib.Core.Option

-- The address of a LIST node. `list_entry` takes it to the structure around it by a constant
-- offset, so that structure goes by the same number.
abbrev pub Addr : Type 0
Addr = ℕ

abbrev pub null : Addr
null = 0

pub record Links : Type 0 where
  pub prev : Addr → Addr
  pub next : Addr → Addr

unfoldable pub set_next : Links → Addr → Addr → Links
set_next l p q = record l { next = update l.next p q }

unfoldable pub set_prev : Links → Addr → Addr → Links
set_prev l p q = record l { prev = update l.prev p q }

unfoldable pub list_init : Links → Addr → Links
unfolding set_next set_prev
list_init l head = let l = set_next l head head in set_prev l head head

abbrev pub is_list_last : Links → Addr → Bool
is_list_last l head = l.next head == head

abbrev pub is_list_empty : Links → Addr → Bool
is_list_empty l list = l.next list == list

unfoldable pub list_insert : Links → Addr → Addr → Links
unfolding set_next set_prev
list_insert l head node =
    let l = set_next l node node in let l = set_prev l node head in set_next l head node

unfoldable pub list_insert_spec : Links → Addr → Addr → Links
unfolding list_insert
list_insert_spec l head node =
    if is_list_last l head
    then list_insert l head node
    else let l = set_next l node (l.next head) in
      let l = set_prev l node head in let l = set_prev l (l.next head) node in set_next l head node

unfoldable pub list_delete : Links → Addr → Links
unfolding set_next set_prev
list_delete l node =
    if is_list_last l node
    then set_next l (l.prev node) (l.prev node)
    else let l = set_next l (l.prev node) (l.next node) in set_prev l (l.next node) (l.prev node)

-- `while (!is_list_last(list)) list = list->next;`
unfoldable pub list_last : ℕ → Links → Addr → Option Addr
list_last zero l list = none
list_last (suc fuel) l list =
    let rest = list_last fuel l (l.next list) in if is_list_last l list then some list else rest

unfoldable pub list_insert_behind : ℕ → Links → Addr → Addr → Option Links
unfolding list_last list_insert
list_insert_behind fuel l head node =
    Option.map (λ list. list_insert l list node) (list_last fuel l head)
