-- ===== src/Fsm/Automaton.antt =====
-- `fsm_while` of kernel/fsm.c as an automaton on a list of states.
use fos.Prelude.{
  ℕ, zero, suc, ◌<◌, ◌≤◌, ◌≡◌, ◌∙◌, ap, sym, refl, Option, none, some, List, [], ◌∷◌, arith, ◌==◌,
  if◌then◌else◌, length,
}
use fos.LinkedList.{Addr}
use fos.Kernel.{◌>>=◌}
use fos.Fsm.{
  Message, null_text, own_buffer, other_text, text_of, Machine, Fsm, StateDis, msg_len, state_tran,
  fsm_while,
}
use fos.Fsm.Table.{States, first_state, state_tran-first}

-- The entries of the table, in order.
abbrev pub entries : (Addr → StateDis) → List Addr → List StateDis
entries dis [] = []
entries dis (x ∷ xs) = dis x ∷ entries dis xs

-- Where a transition to a state leads: to its first entry, or to the default.
abbrev pub go_to : List StateDis → Fsm → ℕ → List ℕ → Fsm
go_to [] default state text = record default { message = [] }
go_to (d ∷ ds) default state text =
    if d.state == state
    then record { state = state; func = d.func; name = d.name; message = text }
    else go_to ds default state text

-- What each function answers to its message: the next state, and the message for it. A function that
-- passes on the message that it got passes on nothing.
module _ (answer : ℕ → List ℕ → ℕ × Message) (table : List StateDis) (default : Fsm) where
  abbrev pub step : Fsm → Fsm
  step c =
      let (state, message) = answer c.func c.message in
      go_to table default state (text_of [] message)

  abbrev pub steps : ℕ → Fsm → Fsm
  steps zero c = c
  steps (suc n) c = steps n (step c)

-- A message that leaves room for the zero behind it.
abbrev pub Fits : Message → Type 0
Fits null_text = Unit
Fits own_buffer = Unit
Fits (other_text text) = length text < msg_len

Fits-text_of : (message : Message) → Fits message → length (text_of [] message) ≤ msg_len
unfolding text_of
Fits-text_of null_text fits = omega arith
Fits-text_of own_buffer fits = omega arith
Fits-text_of (other_text text) fits = omega (arith, fits)

go_to-first :
    (dis : Addr → StateDis) (default : Fsm) (state : ℕ) (text : List ℕ) (xs : List Addr)
    → go_to (entries dis xs) default state text ≡ elim (first_state dis state xs) [
      | none ↦ record default { message = [] }
      | some tmp ↦ record {
        state = state;
        func = (dis tmp).func;
        name = (dis tmp).name;
        message = text;
      }
    ]
unfolding first_state
go_to-first dis default state text [] = refl
go_to-first dis default state text (x ∷ xs) = ground (arith, go_to-first dis default state text xs)

-- If every function does one transition, with NULL, the argument that it got or a text shorter than the
-- buffer, any number of rounds of the loop returns, and is that many
-- steps of the automaton.
pub fsm_while-steps :
    (answer : ℕ → List ℕ → ℕ × Message) (call : ℕ → Machine → Option Machine) (fuel rounds : ℕ)
    (m : Machine) (xs : List Addr)
    → ((f : ℕ) (m : Machine)
        → call f m ≡ state_tran fuel (answer f m.fsm.message).0 (answer f m.fsm.message).1 m)
    → ((f : ℕ) (text : List ℕ) → Fits (answer f text).1)
    → States m xs
    → length xs < fuel
    → fsm_while rounds call m
      ≡ some (record m {
        fsm = steps answer (entries m.dis (m.state_obj_copy ∷ xs)) m.fsm_default rounds m.fsm;
      })
unfolding fsm_while
fsm_while-steps answer call fuel zero m xs does fits c enough = refl
fsm_while-steps answer call fuel (suc rounds) m xs does fits c enough =
    let f = m.fsm.func in
    let text = m.fsm.message in
    let m' : Machine = record m {
      fsm = step answer (entries m.dis (m.state_obj_copy ∷ xs)) m.fsm_default m.fsm;
    } in
    let moves : call f m ≡ some m' =
      does f m
      ∙ state_tran-first fuel (answer f text).0 (answer f text).1 m xs c enough
          (Fits-text_of (answer f text).1 (fits f text))
      ∙ ap (λ (c : Fsm). some (record m { fsm = c }))
          (sym (
            go_to-first m.dis m.fsm_default (answer f text).0 (text_of [] (answer f text).1)
              (m.state_obj_copy ∷ xs))) in
    ap (λ r. r >>= fsm_while rounds call) moves
    ∙ fsm_while-steps answer call fuel rounds m' xs does fits c enough
