-- ===== src/System/Delivery.antt =====
-- The messages of a queue over a whole run.
pub mod Puts
use mathlib.Core.List.{append_assoc, append-nil}
use fos.Prelude.{
  ℕ, not, ◌≡◌, ◌≢◌, ◌∙◌, sym, ap, refl, true, Bool-cases, inl, inr, arith, if◌then◌else◌, ◌==◌,
  ==_ne, ==_iff, Option, none, some, List, [], ◌∷◌, ◌++◌,
}
use fos.LinkedList.{Addr, null, is_list_last}
use fos.System.Delivery.Puts.{taken, put-taken}
use fos.MessageQueue.{msg_put, msg_get, msg_fetch, msg_block_queue_insert, empty}
use fos.Sched.{schedule, prio_ready_queue_delete}
use fos.LinkedList.Shape.{Lists}
use fos.Kernel.{Kernel, msg_head, ◌>>=◌, interrupt_disable, interrupt_enable}
use fos.Sched.Models.{Models}
use fos.System.{
  Layout, World, Call, Runs, run, start, call, Allowed, do_msg_get, do_sem_get, do_sem_put,
  do_mutex_get, do_mutex_put, do_msg_put, do_schedule, do_timer_req, do_os_delay, do_hardware_timer,
  do_task_prio_change, do_task_create,
}
use fos.System.Facts.{Sound}
use fos.System.Streams.{sent_of, got_of, in_order}
use fos.System.Safety.{call-Sound, Runs-Sound}
use mathlib.Core.Path.{subst}

-- The messages that the calls of `msg_put` on `q` took, as they told their callers, in their order.
abbrev pub accepted_of : World → ℕ → Addr → Call → Kernel → List Addr
accepted_of w size q (do_msg_put a msg method) k =
    if a == q then taken msg (msg_put w.port size a msg method k) else []
accepted_of w size q c k = []

abbrev pub sent :
    Addr → {w : World} {o : Layout} {k0 k : Kernel} {cs : List Call} → Runs w o k0 cs k → List Addr
sent q start = []
sent q {w} {o} (call {k = k1} r c allowed e) = sent q r ++ accepted_of w o.size q c k1

-- The messages that the calls of a run fetch from `q`.
abbrev pub got :
    Addr → {w : World} {o : Layout} {k0 k : Kernel} {cs : List Call} → Runs w o k0 cs k → List Addr
got q start = []
got q (call {k = k1} r c allowed e) = got q r ++ got_of q c k1

-- What stands in them when they are fetched.
abbrev buffs : Kernel → List Addr → List ℕ
buffs k [] = []
buffs k (m ∷ ms) = (k.msg m).buff ∷ buffs k ms

abbrev pub contents :
    Addr → {w : World} {o : Layout} {k0 k : Kernel} {cs : List Call} → Runs w o k0 cs k → List ℕ
contents q start = []
contents q (call {k = k1} r c allowed e) = contents q r ++ buffs k1 (got_of q c k1)

-- What the calls of `msg_get` on `q` write to the buffers of their callers, in their order.
abbrev result_of : Option (ℕ × Option ℕ × Kernel) → List ℕ
result_of none = []
result_of (some (code, none, k)) = []
result_of (some (code, some buff, k)) = buff ∷ []

abbrev pub handed_of : World → ℕ → Addr → Call → Kernel → List ℕ
handed_of w size q (do_msg_get a buffer) k =
    if a == q then result_of (msg_get w.port size a buffer k) else []
handed_of w size q c k = []

abbrev pub handed :
    Addr → {w : World} {o : Layout} {k0 k : Kernel} {cs : List Call} → Runs w o k0 cs k → List ℕ
handed q start = []
handed q {w} {o} (call {k = k1} r c allowed e) = handed q r ++ handed_of w o.size q c k1

result_of-bind :
    {A : Type 0} (x : Option A) (f : A → Option (ℕ × Option ℕ × Kernel))
    → ((a : A) → result_of (f a) ≡ [])
    → result_of (x >>= f) ≡ []
result_of-bind none f h = refl
result_of-bind (some a) f h = h a

-- A `msg_get` hands out what stands in the message that it fetches.
get_lem :
    (w : World) (size q buffer : ℕ) (k : Kernel)
    → q ≢ null
    → buffer ≢ null
    → result_of (msg_get w.port size q buffer k) ≡ buffs k (got_of q (do_msg_get q buffer) k)
unfolding msg_get msg_fetch
get_lem w size q buffer k nq nb =
    let same : (q == q) ≡ true = ground arith in
    let (sr, k0) = interrupt_disable w.port k in
    let done : Kernel → Option (ℕ × Option ℕ × Kernel) = λ k3. some (empty, none, k3) in
    let switch : Kernel → Option (ℕ × Option ℕ × Kernel) =
      λ k2. schedule w.port size (interrupt_enable w.port sr k2) >>= done in
    let insert : Kernel → Option (ℕ × Option ℕ × Kernel) =
      λ k1. msg_block_queue_insert size q k1 >>= switch in
    elim (Bool-cases (is_list_last k.links (msg_head q))) [
      | inl e ↦
          rw (==_ne q null nq, ==_ne buffer null nb, e, same)
            (result_of-bind (prio_ready_queue_delete k.new_task k0) insert λ k1.
              result_of-bind (msg_block_queue_insert size q k1) switch λ k2.
                result_of-bind (schedule w.port size (interrupt_enable w.port sr k2)) done
                  λ k3. refl)
      | inr e ↦ rw (==_ne q null nq, ==_ne buffer null nb, e, same) refl
    ]

handed_lem :
    (w : World) (o : Layout) (q : Addr) (c : Call) (k : Kernel) (lists : Lists)
    → Allowed o c k lists
    → handed_of w o.size q c k ≡ buffs k (got_of q c k)
handed_lem w o q (do_msg_get a buffer) k lists (ha, nb, ni) = elim (Bool-cases (a == q)) [
  | inr ne ↦ rw ne refl
  | inl e ↦
      let far : a ≢ null = λ z. ground (arith, o.queue_head a ha, z) in
      subst
        (λ (b : Addr).
          handed_of w o.size b (do_msg_get a buffer) k ≡ buffs k (got_of b (do_msg_get a buffer) k))
        ((==_iff a q).0 e)
        (let same : (a == a) ≡ true = ground arith in
          ap (λ b. if b then result_of (msg_get w.port o.size a buffer k) else []) same
          ∙ get_lem w o.size a buffer k far nb)
]
handed_lem w o q (do_sem_get s) k lists allowed = refl
handed_lem w o q (do_sem_put s) k lists allowed = refl
handed_lem w o q (do_mutex_get m) k lists allowed = refl
handed_lem w o q (do_mutex_put m) k lists allowed = refl
handed_lem w o q (do_msg_put a msg method) k lists allowed = refl
handed_lem w o q do_schedule k lists allowed = refl
handed_lem w o q (do_timer_req timer func timeout period arg) k lists allowed = refl
handed_lem w o q (do_os_delay n) k lists allowed = refl
handed_lem w o q do_hardware_timer k lists allowed = refl
handed_lem w o q (do_task_prio_change tcb prio) k lists allowed = refl
handed_lem w o q (do_task_create tcb name fun arg stack stack_size prio state mem) k lists allowed =
    refl

-- A call that returns took the message exactly if there was room.
accepted_lem :
    (w : World) {o : Layout} (q : Addr) (c : Call) {k k' : Kernel} {lists : Lists}
    → Sound o k lists
    → Allowed o c k lists
    → run w o.size c k ≡ some k'
    → accepted_of w o.size q c k ≡ sent_of q c k
unfolding run
accepted_lem w {o} q (do_msg_put a msg method) {k} g (ha, loose, nm, lt, kind) e =
    elim (Bool-cases (a == q)) [
      | inr ne ↦ rw ne refl
      | inl same ↦
          let far : a ≢ null = λ z. ground (arith, o.queue_head a ha, z) in
          let got = put-taken w.port o.size a msg method k far nm (g.facts.fits a ha) e in
          rw same (
            got
            ∙ ap
                (λ (b : Addr).
                  if not ((k.queue b).count == (k.queue b).length) then msg ∷ [] else [])
                ((==_iff a q).0 same))
    ]
accepted_lem w q (do_sem_get s) g allowed e = refl
accepted_lem w q (do_sem_put s) g allowed e = refl
accepted_lem w q (do_mutex_get m) g allowed e = refl
accepted_lem w q (do_mutex_put m) g allowed e = refl
accepted_lem w q (do_msg_get a buffer) g allowed e = refl
accepted_lem w q do_schedule g allowed e = refl
accepted_lem w q (do_timer_req timer func timeout period arg) g allowed e = refl
accepted_lem w q (do_os_delay n) g allowed e = refl
accepted_lem w q do_hardware_timer g allowed e = refl
accepted_lem w q (do_task_prio_change tcb prio) g allowed e = refl
accepted_lem w q (do_task_create tcb name fun arg stack stack_size prio state mem) g allowed e =
    refl

-- All calls that put on `q` put at the end.
abbrev pub InOrder : Addr → List Call → Type 0
InOrder q [] = Unit
InOrder q (c ∷ cs) = (in_order q c ≡ true) × InOrder q cs

module _ (world : World) {o : Layout} {k0 : Kernel} {lists0 : Lists} (g : Sound o k0 lists0)
    (q : Addr) (hq : o.queue q ≡ true) where
  flows_lem :
      {k : Kernel} {cs : List Call} (r : Runs world o k0 cs k)
      → InOrder q cs
      → (lists : Lists) × Sound o k lists
        × (lists0 (msg_head q) ++ sent q r ≡ got q r ++ lists (msg_head q))
  flows_lem start order = (lists0, g, append-nil (lists0 (msg_head q)))
  flows_lem (call {k = k1} r c allowed e) (first, order) =
      let (lists, g1, eq) = flows_lem r order in
      let (lists', g', older, top, flows, units) =
        call-Sound world g1 c (allowed lists g1.models) e in
      (
        lists',
        g',
        ap (λ xs. lists0 (msg_head q) ++ (sent q r ++ xs))
              (accepted_lem world q c g1 (allowed lists g1.models) e)
            ∙ sym (append_assoc (lists0 (msg_head q)) (sent q r) (sent_of q c k1))
            ∙ ap (λ xs. xs ++ sent_of q c k1) eq
            ∙ append_assoc (got q r) (lists (msg_head q)) (sent_of q c k1)
            ∙ ap (λ xs. got q r ++ xs) (flows.flow q hq first)
            ∙ sym (append_assoc (got q r) (got_of q c k1) (lists' (msg_head q))),
      )

  handed-contents :
      {k : Kernel} {cs : List Call} (r : Runs world o k0 cs k) → handed q r ≡ contents q r
  handed-contents start = refl
  handed-contents (call {k = k1} r c allowed e) =
      let (lists, g1) = Runs-Sound world g r in
      ap (λ xs. xs ++ handed_of world o.size q c k1) (handed-contents r)
      ∙ ap (λ xs. contents q r ++ xs) (handed_lem world o q c k1 lists (allowed lists g1.models))

  -- Whatever has run from a sound kernel, with all puts on a queue at its end: the messages that were
  -- in the queue at first and those that calls of `msg_put` took, as they told, are, in this order, those that
  -- were fetched and those that are in the queue: none is lost, doubled or overtaken. And what the calls
  -- of `msg_get` wrote to the buffers of their callers is, in this order, what stood in the messages
  -- that were fetched.
  pub Runs-fifo :
      {k : Kernel} {cs : List Call} (r : Runs world o k0 cs k)
      → InOrder q cs
      → (lists : Lists) × Models o.head k lists
        × (lists0 (msg_head q) ++ sent q r ≡ got q r ++ lists (msg_head q))
        × (handed q r ≡ contents q r)
  Runs-fifo r order =
      let (lists, g', eq) = flows_lem r order in (lists, g'.models, eq, handed-contents r)
