-- ===== src/System/Streams.antt =====
-- What a call does to the messages of the queues.
use fos.Prelude.{
  ℕ, ◌+◌, ◌<◌, ◌≡◌, inl, inr, Bool, true, false, not, ◌||◌, ◌&&◌, List, [], ◌∷◌, ◌++◌, arith, ◌==◌,
  Bool-cases, update, ap, ==_iff, ==_ne, sym, ◌∙◌, if◌then◌else◌, is_nil,
}
use mathlib.Core.Path.{subst}
use mathlib.Core.List.{append-nil}
use fos.LinkedList.{Addr, is_list_last}
use fos.LinkedList.Shape.{Lists, is_list_last-is_nil}
use fos.Kernel.{Kernel, msg_head}
use fos.Sched.Models.{Models}
use fos.Sched.Fetch.{Highest}
use fos.MessageQueue.{fifo}
use fos.Timer.Queue.{next_of, next_of-first}
use fos.System.{Layout, Call, do_msg_put, do_msg_get}

-- The message that a call stores in queue `q`, and the one that it fetches, if there is one.
abbrev pub sent_of : Addr → Call → Kernel → List Addr
sent_of q (do_msg_put a msg method) k =
    if a == q && not ((k.queue q).count == (k.queue q).length) then msg ∷ [] else []
sent_of q c k = []

abbrev pub got_of : Addr → Call → Kernel → List Addr
got_of q (do_msg_get a buffer) k =
    if a == q && not (is_list_last k.links (msg_head q)) then k.links.next (msg_head q) ∷ [] else []
got_of q c k = []

-- The call is no put on `q`, or one at the end.
abbrev pub in_order : Addr → Call → Bool
in_order q (do_msg_put a msg method) = not (a == q) || method == fifo
in_order q c = true

-- What was in the queue and what is stored are what is fetched and what is in the queue after that.
pub record Flows (o : Layout) (c : Call) (k : Kernel) (lists lists' : Lists) : Type 0 where
  pub flow :
      (q : Addr)
      → o.queue q ≡ true
      → in_order q c ≡ true
      → lists (msg_head q) ++ sent_of q c k ≡ got_of q c k ++ lists' (msg_head q)

module _ (o : Layout) (q : Addr) (hq : o.queue q ≡ true) where
  pub stored_at : o.stores (msg_head q) ≡ true
  stored_at = (o.queue_head q hq).4

  pub messages_far : 33 < msg_head q
  messages_far = o.stores_far (msg_head q) stored_at

  -- A head that stores no messages is another one.
  pub messages-plain : (h : Addr) → o.stores h ≡ false → (msg_head q == h) ≡ false
  messages-plain h plain =
      ==_ne (msg_head q) h (λ e. ground (arith, plain, stored_at, ap o.stores e))

-- A call that touches no messages.
pub still :
    {o : Layout} {c : Call} {k : Kernel} {lists lists' : Lists}
    → ((q : Addr) → sent_of q c k ≡ [])
    → ((q : Addr) → got_of q c k ≡ [])
    → ((q : Addr) → o.queue q ≡ true → lists' (msg_head q) ≡ lists (msg_head q))
    → Flows o c k lists lists'
still {lists} s g same = record {
  flow = λ q hq order. rw (s q) (rw (g q) (append-nil (lists (msg_head q)) ∙ sym (same q hq)));
}

-- The scheduler's choice touches no messages.
pub flows_on :
    {o : Layout} {lists1 : Lists} {r : ℕ} {t : Addr} {ts : List Addr}
    → Highest lists1 r t ts
    → {c : Call} {k : Kernel} {lists : Lists} → Flows o c k lists lists1
    → Flows o c k lists (update lists1 (r + 1) (ts ++ t ∷ []))
flows_on {o} {lists1} {r} {t} {ts} h b = record {
  flow = λ q hq order.
      let far : lists1 (msg_head q) ≡ update lists1 (r + 1) (ts ++ t ∷ []) (msg_head q) =
        ground (arith, h.in_range, messages_far o q hq) in
      rw (← far) (b.flow q hq order);
}

module _ {o : Layout} {k : Kernel} {lists lists' : Lists} (v : Models o.head k lists) (q : Addr)
    (hq : o.queue q ≡ true) where
  -- A put at the end.
  pub put_flows :
      (msg method : ℕ)
      → ((k.queue q).count == (k.queue q).length) ≡ false
      → (method ≡ fifo → lists' (msg_head q) ≡ lists (msg_head q) ++ msg ∷ [])
      → ((a : Addr)
          → o.queue a ≡ true
          → (a == q) ≡ false
          → lists' (msg_head a) ≡ lists (msg_head a))
      → Flows o (do_msg_put q msg method) k lists lists'
  put_flows msg method room here others =
      let at_q : in_order q (do_msg_put q msg method) ≡ true
          → lists (msg_head q) ++ sent_of q (do_msg_put q msg method) k ≡ lists' (msg_head q) =
        λ order. ground (arith, room, here (ground (arith, order))) in
      record {
        flow = λ a ha order. elim (Bool-cases (a == q)) [
          | inr ne ↦ ground (arith, ne, append-nil (lists (msg_head a)), others a ha ne)
          | inl e ↦
              subst
                (λ (b : Addr).
                  in_order b (do_msg_put q msg method) ≡ true
                  → lists (msg_head b) ++ sent_of b (do_msg_put q msg method) k
                    ≡ lists' (msg_head b))
                (sym ((==_iff a q).0 e)) at_q order
        ];
      }

  -- A put that finds no room.
  pub full_flows :
      (msg method : ℕ)
      → ((k.queue q).count == (k.queue q).length) ≡ true
      → ((a : Addr) → o.queue a ≡ true → lists' (msg_head a) ≡ lists (msg_head a))
      → Flows o (do_msg_put q msg method) k lists lists'
  full_flows msg method room same = record {
    flow = λ a ha order. elim (Bool-cases (a == q)) [
      | inr ne ↦ ground (arith, ne, append-nil (lists (msg_head a)), same a ha)
      | inl e ↦ ground (
        arith,
        e,
        room,
        ap (λ b. (k.queue b).count) ((==_iff a q).0 e),
        ap (λ b. (k.queue b).length) ((==_iff a q).0 e),
        append-nil (lists (msg_head a)),
        same a ha,
      )
    ];
  }

  -- A get that finds a message.
  pub first_flows :
      (buffer : ℕ) {msg : Addr} {msgs : List Addr}
      → lists (msg_head q) ≡ msg ∷ msgs
      → lists' (msg_head q) ≡ msgs
      → ((a : Addr)
          → o.queue a ≡ true
          → (a == q) ≡ false
          → lists' (msg_head a) ≡ lists (msg_head a))
      → Flows o (do_msg_get q buffer) k lists lists'
  first_flows buffer {msg} {msgs} first rest others =
      let hm = (o.queue_head q hq).1 in
      let chain = v.shape.chain (msg_head q) hm in
      let next : k.links.next (msg_head q) ≡ msg =
        next_of-first k.links (msg_head q) (lists (msg_head q)) chain
        ∙ ap (next_of (msg_head q)) first in
      let more : is_list_last k.links (msg_head q) ≡ false =
        is_list_last-is_nil v.shape (msg_head q) hm ∙ ap is_nil first in
      let at_q : lists (msg_head q) ++ []
          ≡ got_of q (do_msg_get q buffer) k ++ lists' (msg_head q) =
        append-nil (lists (msg_head q)) ∙ first ∙ ground (arith, next, more, rest) in
      record {
        flow = λ a ha order. elim (Bool-cases (a == q)) [
          | inr ne ↦ ground (arith, ne, append-nil (lists (msg_head a)), others a ha ne)
          | inl e ↦
              subst
                (λ (b : Addr).
                  lists (msg_head b) ++ []
                  ≡ got_of b (do_msg_get q buffer) k ++ lists' (msg_head b))
                (sym ((==_iff a q).0 e)) at_q
        ];
      }

  -- A get that finds none.
  pub none_flows :
      (buffer : ℕ)
      → lists (msg_head q) ≡ []
      → ((a : Addr) → o.queue a ≡ true → lists' (msg_head a) ≡ lists (msg_head a))
      → Flows o (do_msg_get q buffer) k lists lists'
  none_flows buffer none_left same =
      let hm = (o.queue_head q hq).1 in
      let last : is_list_last k.links (msg_head q) ≡ true =
        is_list_last-is_nil v.shape (msg_head q) hm ∙ ap is_nil none_left in
      record {
        flow = λ a ha order. elim (Bool-cases (a == q)) [
          | inr ne ↦ ground (arith, ne, append-nil (lists (msg_head a)), same a ha)
          | inl e ↦ ground (
            arith,
            e,
            last,
            ap (λ b. is_list_last k.links (msg_head b)) ((==_iff a q).0 e),
            append-nil (lists (msg_head a)),
            same a ha,
          )
        ];
      }
