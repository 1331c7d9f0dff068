-- ===== src/MessageQueue/Put.antt =====
-- `msg_put` of kernel/queue.c on the level of the lists.
use mathlib.Core.Path.{subst}
use fos.Prelude.{
  ℕ, ◌+◌, ◌<◌, ◌≡◌, ◌≢◌, refl, Bool, true, false, some, List, ◌∷◌, [], ◌++◌, arith, ◌==◌,
  if◌then◌else◌, update, length, Bool-cases, inl, inr, ◌∉◌, ap, ==_ne, is_nil, has-append, sym, ◌∙◌,
  List-cases,
}
use fos.LinkedList.{Addr, Links, null, list_insert_spec}
use fos.LinkedList.Shape.{
  Lists, Loose, is_list_last-is_nil, Shape-list_insert_behind, Shape-list_insert_spec,
}
use fos.PrioMap.{PrioMap}
use fos.Kernel.{Kernel, Port, Tcb, true_code, msg_head}
use fos.Sched.Models.{Models, rebase}
use fos.Sched.Models.Queues.{blocked-Models}
use fos.Sched.Block.{woken, wake_lem, first_blocked}
use fos.Sched.Fetch.{Models-ext}
use fos.MessageQueue.{set_queue, msg_put, msg_store, msg_wake, full, fifo}

-- The queue's messages after a put: behind the others or in front.
abbrev pub stored : ℕ → List Addr → Addr → List Addr
stored method msgs msg = if method == fifo then msgs ++ msg ∷ [] else msg ∷ msgs

-- Room for another message, and a queue whose count is the number of its messages.
pub record HasRoom (k : Kernel) (lists : Lists) (q : Addr) : Type 0 where
  pub counted : (k.queue q).count ≡ length (lists (msg_head q))
  pub room : (k.queue q).count < (k.queue q).length

-- The lists after a put that only wakes the first blocked task of `q`, if there is one.
abbrev pub woken_only : (Addr → Tcb) → Lists → Addr → List Addr → Lists
woken_only tcb lists q [] = lists
woken_only tcb lists q (w ∷ ws) = woken lists (tcb w).prio w q ws

not_zero : (s : Addr) → 32 < s → (s == null) ≡ false
not_zero s h = ground arith

module _ (fuel : ℕ) {head : Addr → Bool} {k : Kernel} {lists : Lists} (v : Models head k lists)
    (q : Addr) (hq : head q ≡ true) (hm : head (msg_head q) ≡ true) (far : 32 < q) where
  store_lem :
      (msg : Addr) (method : ℕ)
      → Loose head lists msg
      → msg ≢ null
      → HasRoom k lists q
      → length (lists (msg_head q)) < fuel
      → (l : Links) × (msg_store fuel q msg method k
          ≡ some (
            true_code,
            record (set_queue k q (record (k.queue q) { count = (k.queue q).count + 1 })) {
              links = l;
            },
          ))
        × Models head
            (record k { links = l })
            (update lists (msg_head q) (stored method (lists (msg_head q)) msg))
  unfolding msg_store
  store_lem msg method o ne r long = elim (Bool-cases (method == fifo)) [
    | inl e ↦
        let (l, e', s) = Shape-list_insert_behind v.shape fuel (msg_head q) msg hm o long in
        (
          l,
          ground (arith, e, e', r.room),
          rw e (
              blocked-Models v l (msg_head q) (lists (msg_head q) ++ msg ∷ []) hm (omega arith) s (
                ground (
                  arith,
                  has-append null (lists (msg_head q)) (msg ∷ []),
                  v.no_null (msg_head q) hm,
                ))),
        )
    | inr e ↦ (
      list_insert_spec k.links (msg_head q) msg,
      ground (arith, e, r.room),
      rw e (
          blocked-Models v (list_insert_spec k.links (msg_head q) msg) (msg_head q)
            (msg ∷ lists (msg_head q)) hm (omega arith)
            (Shape-list_insert_spec v.shape (msg_head q) msg hm o)
            (ground (arith, v.no_null (msg_head q) hm))),
    )
  ]

module _ (port : Port) (fuel : ℕ) {head : Addr → Bool} {k : Kernel} {lists : Lists}
    (v : Models head k lists) (q : Addr) (hq : head q ≡ true) (hm : head (msg_head q) ≡ true)
    (far : 32 < q) where
  -- With no task blocked and room left, `msg_put` stores the message last (FIFO) or first (LIFO),
  -- counts it, and changes nothing else.
  pub msg_put-stores :
      (msg : Addr) (method : ℕ)
      → lists q ≡ []
      → Loose head lists msg
      → msg ≢ null
      → HasRoom k lists q
      → length (lists (msg_head q)) < fuel
      → (l : Links) × (msg_put port fuel q msg method k
          ≡ some (
            true_code,
            record (set_queue k q (record (k.queue q) { count = (k.queue q).count + 1 })) {
              links = l;
            },
          ))
        × Models head
            (record k { links = l })
            (update lists (msg_head q) (stored method (lists (msg_head q)) msg))
  unfolding msg_put
  msg_put-stores msg method none o ne r long =
      let k0 : Kernel = record k { sr = (port.interrupt_disable k.sr).1 } in
      let r0 : HasRoom k0 lists q = record { counted = r.counted; room = r.room } in
      let (l, e, v1) =
        store_lem fuel (rebase k0 v refl refl refl) q hq hm far msg method o ne r0 long in
      (
        l,
        ground (
          arith,
          e,
          not_zero q far,
          ==_ne msg null ne,
          r.room,
          port.restores k.sr,
          is_list_last-is_nil v.shape q hq,
          ap is_nil none,
        ),
        rebase (record k { links = l }) v1 refl refl refl,
      )

  -- With a task blocked and room left, `msg_put` moves the first blocked task to the front of its
  -- ready queue and stores the message; the processor stays with the running task.
  pub msg_put-wakes :
      (msg : Addr) (method : ℕ) {w : Addr} {ws : List Addr}
      → lists q ≡ w ∷ ws
      → Loose head lists msg
      → msg ≢ null
      → HasRoom k lists q
      → length (lists (msg_head q)) < fuel
      → (let lists' = woken lists (k.tcb w).prio w q ws in
          (l : Links) × (m : PrioMap) × (msg_put port fuel q msg method k
            ≡ some (
              true_code,
              record (set_queue k q (record (k.queue q) { count = (k.queue q).count + 1 })) {
                links = l;
                map = m;
              },
            ))
          × Models head
              (record k { links = l; map = m })
              (update lists' (msg_head q) (stored method (lists (msg_head q)) msg)))
  unfolding msg_put
  msg_put-wakes msg method {w} {ws} e o ne r long =
      let k0 : Kernel = record k { sr = (port.interrupt_disable k.sr).1 } in
      let (next, wne, wi) = first_blocked v q hq far w ws e in
      let p = (k.tcb w).prio in
      let (l, m, e1, v1) = wake_lem (rebase k0 v refl refl refl) q hq far w ws p e refl in
      let k1 : Kernel = record k0 { links = l; map = m } in
      let lists' = woken lists p w q ws in
      let same : lists' (msg_head q) ≡ lists (msg_head q) = ground (arith, v.prios w) in
      let out : msg ∉ (w ∷ ws) = subst (λ xs. msg ∉ xs) e (o.free q hq) in
      let o' : Loose head lists' msg = record {
        free = λ h hh. ground (arith, out, o.free h hh, o.free (p + 1));
        no_head = o.no_head;
      } in
      let r1 : HasRoom k1 lists' q = record {
        counted = r.counted ∙ ap length (sym same);
        room = r.room;
      } in
      let (l2, e2, v2) = store_lem fuel v1 q hq hm far msg method o' ne r1 (rw same long) in
      (
        l2,
        m,
        ground (
          arith,
          e1,
          e2,
          next,
          not_zero q far,
          ==_ne msg null ne,
          r.room,
          port.restores k.sr,
          is_list_last-is_nil v.shape q hq,
          ap is_nil e,
        ),
        Models-ext (rebase (record k { links = l2; map = m }) v2 refl refl refl)
            (λ g. ground (arith, same)),
      )

  -- A full queue stores nothing: `msg_put` returns FULL, with the count and the messages as they were,
  -- but it still moves the first blocked task, if there is one, to the front of its ready queue.
  pub msg_put-full :
      (msg : Addr) (method : ℕ)
      → msg ≢ null
      → (k.queue q).count ≡ (k.queue q).length
      → (l : Links) × (m : PrioMap) × (msg_put port fuel q msg method k
          ≡ some (full, record k { links = l; map = m }))
        × Models head (record k { links = l; map = m }) (woken_only k.tcb lists q (lists q))
  unfolding msg_put msg_store msg_wake
  msg_put-full msg method ne no_room = elim (List-cases (lists q)) [
    | inl none ↦ (
      k.links,
      k.map,
      ground (
        arith,
        not_zero q far,
        ==_ne msg null ne,
        no_room,
        port.restores k.sr,
        is_list_last-is_nil v.shape q hq,
        ap is_nil none,
      ),
      rw none v,
    )
    | inr (w, ws, e) ↦
        let k0 : Kernel = record k { sr = (port.interrupt_disable k.sr).1 } in
        let (next, wne, wi) = first_blocked v q hq far w ws e in
        let (l, m, e1, v1) =
          wake_lem (rebase k0 v refl refl refl) q hq far w ws (k.tcb w).prio e refl in
        (
          l,
          m,
          ground (
            arith,
            e1,
            next,
            not_zero q far,
            ==_ne msg null ne,
            no_room,
            port.restores k.sr,
            is_list_last-is_nil v.shape q hq,
            ap is_nil e,
          ),
          rw e (rebase (record k { links = l; map = m }) v1 refl refl refl),
        )
  ]
