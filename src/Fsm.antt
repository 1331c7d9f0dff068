-- ===== src/Fsm.antt =====
-- kernel/fsm.c: the table of states and the current state. The results of `malloc` are arguments
-- (NULL where it fails); `none` is an access through NULL, a message that is longer than the buffer
-- of MSG_LEN bytes, or a table without an end.
pub mod Table
pub mod Automaton
use fos.Prelude.{
  ℕ, zero, suc, ◌+◌, Bool, Option, none, some, List, [], ◌∷◌, ltb, ◌==◌, ◌||◌, if◌then◌else◌,
  update, length,
}
use fos.LinkedList.{Addr, null, Links, list_init, list_insert, list_delete, is_list_empty}
use fos.Kernel.{◌>>=◌}

abbrev pub msg_len : ℕ
msg_len = 1024

-- FSM. `message` is the text in the buffer of MSG_LEN bytes, whose other bytes are zero.
pub record Fsm : Type 0 where
  pub state : ℕ
  pub func : ℕ
  pub name : ℕ
  pub message : List ℕ

-- STATE_DIS, which goes by the address of its node.
pub record StateDis : Type 0 where
  pub state : ℕ
  pub func : ℕ
  pub name : ℕ

-- The globals and the memory. `empty_name` is the literal that `state_remove` stores.
pub record Machine : Type 0 where
  pub links : Links
  pub dis : Addr → StateDis
  pub fsm : Fsm
  pub fsm_obj : Addr
  pub state_obj : Addr
  pub state_obj_copy : Addr
  pub fsm_default : Fsm
  pub empty_name : ℕ

abbrev pub dis_of : ℕ → ℕ → ℕ → StateDis
dis_of state func name = record { state = state; func = func; name = name }

-- The addresses that the two calls of `malloc` return.
unfoldable pub fsm_init : (obj fsm : Addr) → Machine → Machine
fsm_init obj fsm m =
    if obj == null
    then record m { state_obj = null }
    else record m { state_obj = obj; fsm_obj = fsm }

unfoldable pub state_init : (obj fsm : Addr) (state func name : ℕ) → Machine → Option Machine
unfolding fsm_init
state_init obj fsm state func name m =
    let m = fsm_init obj fsm m in
    if m.state_obj == null || m.fsm_obj == null
    then none
    else some (record m {
      fsm = record (m.fsm) { state = state; func = func; name = name };
      dis = update m.dis m.state_obj (dis_of state func name);
      state_obj_copy = m.state_obj;
      links = list_init m.links m.state_obj;
    })

unfoldable pub state_add : (obj : Addr) (state func name : ℕ) → Machine → Option Machine
state_add obj state func name m =
    if obj == null || m.state_obj == null
    then none
    else let l = list_insert m.links m.state_obj obj in
      some (record m {
        dis = update m.dis obj (dis_of state func name);
        links = l;
        state_obj = l.next m.state_obj;
      })

unfoldable pub state_default : (state func name : ℕ) → Machine → Machine
state_default state func name m = record m {
  fsm = record (m.fsm) { state = state; func = func; name = name };
}

-- The walk of `state_remove` and `state_tran`: the loop looks at every node but the last, and the
-- test behind it at the last.
unfoldable pub find_state : ℕ → Addr → ℕ → Machine → Option (Option Addr)
find_state zero tmp state m = none
find_state (suc rounds) tmp state m =
    let rest = find_state rounds (m.links.next tmp) state m in
    if is_list_empty m.links tmp
    then (if (m.dis tmp).state == state then some (some tmp) else some none)
    else (if (m.dis tmp).state == state then some (some tmp) else rest)

unfoldable pub state_remove : ℕ → ℕ → Machine → Option Machine
unfolding find_state
state_remove fuel state m = do
  found ← find_state fuel m.state_obj_copy state m
  some (elim found [
    | none ↦ m
    | some tmp ↦ record m {
      links = list_delete m.links tmp;
      dis = update m.dis tmp (dis_of 10000 null m.empty_name);
    }
  ])

-- The message that `state_tran` gets: NULL, the buffer `fsm_obj->message` itself, which is what a
-- function of the program is called with, or a text elsewhere.
pub data Message : Type 0 where
  null_text : Message
  own_buffer : Message
  other_text : List ℕ → Message

-- What `memcpy` finds there, up to the zero, when the buffer holds `own`.
unfoldable pub text_of : (own : List ℕ) → Message → List ℕ
text_of own null_text = []
text_of own own_buffer = own
text_of own (other_text text) = text

-- The buffer is cleared first, so that a message that stands in it is gone. A text of MSG_LEN bytes
-- fills it and leaves no zero behind; a longer one is written past its end.
unfoldable pub state_tran : ℕ → ℕ → Message → Machine → Option Machine
unfolding find_state state_default text_of
state_tran fuel state message m = do
  let m = record m { fsm = record (m.fsm) { message = [] } }
  found ← find_state fuel m.state_obj_copy state m
  elim found [
    | none ↦ some (state_default m.fsm_default.state m.fsm_default.func m.fsm_default.name m)
    | some tmp ↦
        let text : List ℕ = text_of m.fsm.message message in
        if ltb msg_len (length text)
        then none
        else some (record m {
          fsm = record {
            state = state;
            func = (m.dis tmp).func;
            name = (m.dis tmp).name;
            message = text;
          };
        })
  ]

-- The first `rounds` rounds of the endless loop. `call` is what a function of the program does; its
-- argument is the buffer `message` of the machine itself.
unfoldable pub fsm_while :
    (rounds : ℕ) (call : ℕ → Machine → Option Machine) → Machine → Option Machine
fsm_while zero call m = some m
fsm_while (suc rounds) call m = call m.fsm.func m >>= fsm_while rounds call
