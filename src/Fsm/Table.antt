-- ===== src/Fsm/Table.antt =====
-- kernel/fsm.c on the level of its table of states.
use fos.Prelude.{
  ℕ, zero, suc, ◌<◌, ◌≤◌, ◌≡◌, ◌≢◌, Option, none, some, List, [], ◌∷◌, ◌++◌, arith, ◌==◌,
  if◌then◌else◌, update, length, ◌∈◌, ◌∉◌, ==_ne, remove, has-remove,
}
use fos.LinkedList.{Addr, null, list_insert, list_delete}
use fos.LinkedList.Chain.{
  Chain, last, frame, Chain-list_insert, Chain-list_delete, not-mem-remove, head_not_mem,
}
use fos.Kernel.{◌>>=◌}
use fos.Fsm.{
  Message, other_text, text_of, Machine, StateDis, dis_of, msg_len, state_add, state_remove,
  state_tran, find_state,
}

-- The states of the table: a first node and those behind it.
abbrev pub States : Machine → List Addr → Type 0
States m xs = Chain m.links m.state_obj_copy xs

-- The first node of a state.
unfoldable pub first_state : (Addr → StateDis) → ℕ → List Addr → Option Addr
first_state dis state [] = none
first_state dis state (x ∷ xs) = if (dis x).state == state then some x else first_state dis state xs

find_state-first :
    (rounds tmp state : ℕ) (m : Machine) (xs : List Addr)
    → Chain m.links tmp xs
    → length xs < rounds
    → find_state rounds tmp state m ≡ some (first_state m.dis state (tmp ∷ xs))
unfolding find_state first_state
find_state-first zero tmp state m xs c f = absurd (omega arith)
find_state-first (suc rounds) tmp state m [] c f = ground arith
find_state-first (suc rounds) tmp state m (x ∷ xs) (n, p, o, c) f =
    ground (arith, find_state-first rounds x state m xs c (omega arith))

-- A transition ends. It goes to the first node of the state, with the message in the buffer, which is
-- empty where the message stood in the buffer itself, or, if
-- the table has no such state, to the default state with an empty buffer.
pub state_tran-first :
    (fuel state : ℕ) (message : Message) (m : Machine) (xs : List Addr)
    → States m xs
    → length xs < fuel
    → length (text_of [] message) ≤ msg_len
    → state_tran fuel state message m
      ≡ some (record m {
        fsm = elim (first_state m.dis state (m.state_obj_copy ∷ xs)) [
          | none ↦ record {
            state = m.fsm_default.state;
            func = m.fsm_default.func;
            name = m.fsm_default.name;
            message = [];
          }
          | some tmp ↦ record {
            state = state;
            func = (m.dis tmp).func;
            name = (m.dis tmp).name;
            message = text_of [] message;
          }
        ];
      })
unfolding state_tran
state_tran-first fuel state message m xs c f fits =
    let m0 : Machine = record m { fsm = record (m.fsm) { message = [] } } in
    ground (arith, find_state-first fuel m.state_obj_copy state m0 xs c f)

-- A message that does not fit the buffer is written past its end.
pub state_tran-overflows :
    (fuel state : ℕ) (text : List ℕ) (m : Machine) (xs : List Addr) (x : Addr)
    → States m xs
    → length xs < fuel
    → first_state m.dis state (m.state_obj_copy ∷ xs) ≡ some x
    → msg_len < length text
    → state_tran fuel state (other_text text) m ≡ none
unfolding state_tran text_of
state_tran-overflows fuel state text m xs x c f e long =
    let m0 : Machine = record m { fsm = record (m.fsm) { message = [] } } in
    ground (arith, e, find_state-first fuel m.state_obj_copy state m0 xs c f)

-- While `state_obj` is the last node of the table, a new state goes to the end of it.
pub state_add-appends :
    (obj state func name : ℕ) (m : Machine) (xs : List Addr)
    → States m xs
    → m.state_obj ≡ last m.state_obj_copy xs
    → obj ≢ null
    → m.state_obj ≢ null
    → obj ∉ (m.state_obj_copy ∷ xs)
    → (m' : Machine) × (state_add obj state func name m ≡ some m')
      × States m' (xs ++ obj ∷ [])
      × (m'.state_obj ≡ obj)
      × (m'.dis obj ≡ dis_of state func name)
unfolding state_add list_insert
state_add-appends obj state func name m xs c e ne ne' out = (
  record m {
    dis = update m.dis obj (dis_of state func name);
    links = list_insert m.links m.state_obj obj;
    state_obj = (list_insert m.links m.state_obj obj).next m.state_obj;
  },
  ground (arith, ==_ne obj null ne, ==_ne m.state_obj null ne'),
  rw e (Chain-list_insert m.links m.state_obj_copy obj xs c out),
  ground arith,
  ground arith,
)

-- Where `state_obj` points to a node behind the first of the table, and that node is the first of its
-- state: once the state is removed, a state that is added is hung behind the removed node, filled in,
-- and `state_obj` moves to it, but the table is the old one without the removed node, and holds neither
-- of the two.
pub state_add-lost :
    (fuel obj state state' func name : ℕ) (m : Machine) (xs : List Addr)
    → States m xs
    → length xs < fuel
    → m.state_obj ∈ xs
    → first_state m.dis state (m.state_obj_copy ∷ xs) ≡ some m.state_obj
    → obj ≢ null
    → m.state_obj ≢ null
    → obj ∉ (m.state_obj_copy ∷ xs)
    → (m' : Machine) × ((state_remove fuel state m >>= state_add obj state' func name) ≡ some m')
      × (m'.state_obj ≡ obj)
      × (m'.dis obj ≡ dis_of state' func name)
      × (m'.links.next m.state_obj ≡ obj)
      × (m'.links.prev obj ≡ m.state_obj)
      × States m' (remove m.state_obj xs)
      × (m.state_obj ∉ (m'.state_obj_copy ∷ remove m.state_obj xs))
      × (obj ∉ (m'.state_obj_copy ∷ remove m.state_obj xs))
unfolding state_remove state_add list_insert
state_add-lost fuel obj state state' func name m xs c f i e ne ne' out =
    let l = list_delete m.links m.state_obj in
    let l' = list_insert l m.state_obj obj in
    (
      record m {
        dis =
            update (update m.dis m.state_obj (dis_of 10000 null m.empty_name)) obj
              (dis_of state' func name);
        links = l';
        state_obj = l'.next m.state_obj;
      },
      ground (
        arith,
        e,
        ==_ne obj null ne,
        ==_ne m.state_obj null ne',
        find_state-first fuel m.state_obj_copy state m xs c f,
      ),
      ground arith,
      ground arith,
      ground arith,
      ground arith,
      frame l l' m.state_obj_copy (remove m.state_obj xs)
          (λ a k. ground (
            arith,
            has-remove m.state_obj obj xs,
            not-mem-remove m.links m.state_obj_copy m.state_obj xs c,
            head_not_mem m.links m.state_obj_copy xs c,
          ))
          (λ a k. ground (arith, has-remove m.state_obj obj xs))
          (Chain-list_delete m.links m.state_obj_copy m.state_obj xs c i),
      ground (
        arith,
        not-mem-remove m.links m.state_obj_copy m.state_obj xs c,
        head_not_mem m.links m.state_obj_copy xs c,
      ),
      ground (arith, has-remove m.state_obj obj xs),
    )
