-- ===== src/Examples/Tables.antt =====
-- The theorems on the block allocator, the device table and the state machine.
use fos.Prelude.{
  ℕ, Bool-cases, inl, inr, Option, List, ◌+◌, ◌≡◌, refl, some, [], ◌∷◌, arith, update, ◌==◌,
  if◌then◌else◌, ◌∉◌,
}
use fos.LinkedList.{Links}
use fos.LinkedList.Chain.{Chain, Chain-list_init, Chain-list_insert}
use fos.LinkedList.{list_init, list_insert}
use fos.Kernel.{true_code, ◌>>=◌}
use fos.MemBlock
use fos.MemBlock.Laws.{holder, mem_free-holder}
use fos.Device.{Devices, device_find}
use fos.Device.Table.{first_named, device_find-first}
use fos.Fsm
use fos.Fsm.{
  Message, null_text, own_buffer, other_text, dis_of, state_tran, state_add, state_remove,
  fsm_while,
}
use fos.Fsm.Table.{first_state, States, state_add-lost}
use fos.Fsm.Automaton.{Fits, fsm_while-steps}
use fos.Examples.State.{port}

-- A list at 34 of the nodes 50 and 60.
abbrev links1 : Links
links1 = list_init (record { prev = λ a. a; next = λ a. a }) 34

abbrev links2 : Links
links2 = list_insert links1 34 50

abbrev links : Links
links = list_insert links2 50 60

links-Chain : Chain links 34 (50 ∷ 60 ∷ [])
links-Chain =
    Chain-list_insert links2 34 60 (50 ∷ [])
      (Chain-list_insert links1 34 50 []
        (Chain-list_init (record { prev = λ a. a; next = λ a. a }) 34) refl)
      refl

-- A pool of 100 bytes at 5000 in blocks of ten, with two blocks taken.
abbrev pool : MemBlock.Memory
pool = record {
  links = links;
  pool = record { size = 10; valid = 8; valid_ptr = 5090 };
  block = λ a. record { ptr = if a == 50 then 5000 else 5020; if_valid = 0; flag = 1 };
  sr = 1;
}

mem_free-holder_example :
    MemBlock.mem_free port 9 34 5020 pool
    ≡ some (
      true_code,
      record pool {
        block = update pool.block 60 (record (pool.block 60) { if_valid = 1 });
        sr = 0;
      },
    )
unfolding holder
mem_free-holder_example =
    mem_free-holder port 9 34 5020 pool (50 ∷ 60 ∷ []) links-Chain (omega arith)

-- Two devices, of the names 7 and 8, with the operations at 70.
abbrev devices : Devices
devices = record {
  links = links;
  device = λ a. record {
    enable = 0;
    name = if a == 50 then 7 else 8;
    ops = 70;
    open_count = 1;
    flag = 0;
  };
  ops = λ a. record { open_fn = 71; read = 72; write = 73; ioctrl = 0; close = 75 };
  times = 1;
  calls = [];
}

device_find-first_example : device_find ◌==◌ 9 8 devices ≡ some (some 60)
unfolding first_named
device_find-first_example =
    device_find-first ◌==◌ 9 8 devices (50 ∷ 60 ∷ []) links-Chain (omega arith)

-- A table of the states 1, 2 and 3 at 34, 50 and 60, in state 1.
abbrev machine : Fsm.Machine
machine = record {
  links = links;
  dis = λ a. dis_of (if a == 34 then 1 else if a == 50 then 2 else 3) (a + 1) (a + 2);
  fsm = record { state = 1; func = 35; name = 36; message = [] };
  fsm_obj = 30;
  state_obj = 60;
  state_obj_copy = 34;
  fsm_default = record { state = 0; func = 90; name = 91; message = [] };
  empty_name = 99;
}

-- State 1 goes to 2 with a text, 2 to 3 with the message that it got, 3 to a state that is not there, and all others to 1.
abbrev answer : ℕ → List ℕ → ℕ × Message
answer f text =
    if f == 35
    then (2, other_text (104 ∷ 105 ∷ []))
    else if f == 51
    then (3, own_buffer)
    else if f == 61
    then (9, null_text)
    else (1, other_text (107 ∷ []))

abbrev call_function : ℕ → Fsm.Machine → Option Fsm.Machine
call_function f m = state_tran 9 (answer f m.fsm.message).0 (answer f m.fsm.message).1 m

answer-Fits : (f : ℕ) (text : List ℕ) → Fits (answer f text).1
answer-Fits f text = elim (Bool-cases (f == 35)) [
  | inl e ↦ rw e (omega arith)
  | inr e ↦ rw e (elim (Bool-cases (f == 51)) [
    | inl e ↦ rw e tt
    | inr e ↦ rw e (elim (Bool-cases (f == 61)) [ inl e ↦ rw e tt | inr e ↦ rw e (omega arith) ])
  ])
]

fsm_while-steps_example :
    fsm_while 2 call_function machine
    ≡ some (record machine { fsm = record { state = 3; func = 61; name = 62; message = [] } })
unfolding Fsm.text_of
fsm_while-steps_example =
    fsm_while-steps answer call_function 9 2 machine (50 ∷ 60 ∷ []) (λ f m. refl) answer-Fits
      links-Chain (omega arith)

state_add-lost_example :
    (m' : Fsm.Machine) × ((state_remove 9 3 machine >>= state_add 70 4 71 72) ≡ some m')
    × (m'.state_obj ≡ 70)
    × (m'.dis 70 ≡ dis_of 4 71 72)
    × (m'.links.next 60 ≡ 70)
    × (m'.links.prev 70 ≡ 60)
    × States m' (50 ∷ [])
    × (60 ∉ (m'.state_obj_copy ∷ 50 ∷ []))
    × (70 ∉ (m'.state_obj_copy ∷ 50 ∷ []))
unfolding first_state
state_add-lost_example =
    state_add-lost 9 70 3 4 71 72 machine (50 ∷ 60 ∷ []) links-Chain (omega arith) refl refl
      (omega arith) (omega arith) refl
