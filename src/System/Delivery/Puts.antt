-- ===== src/System/Delivery/Puts.antt =====
-- What a call of `msg_put` of kernel/queue.c returns.
use fos.Prelude.{
  ℕ, ◌+◌, ◌≤◌, ◌≡◌, ◌≢◌, ◌∙◌, ap, refl, Bool, true, false, not, ltb, arith, if◌then◌else◌, ◌==◌,
  ==_ne, Bool-cases, inl, inr, Option, none, some, List, [], ◌∷◌,
}
use fos.LinkedList.{Addr, Links, null, is_list_last, list_insert_behind, list_insert_spec}
use fos.Kernel.{Kernel, Queue, Port, msg_head, true_code, ◌>>=◌, interrupt_disable, task_prio_queue}
use fos.Sched.{prio_ready_queue_insert_head}
use fos.PrioMap.{bitmap_set}
use mathlib.Core.Option.{none-ne-some}
use fos.MessageQueue.{msg_put, msg_wake, msg_store, msg_block_queue_delete, full, fifo, set_queue}

-- A value that is returned, if there is one, has a property.
abbrev OnSome : {A : Type 0} → (A → Type 0) → Option A → Type 0
OnSome P none = Unit
OnSome P (some a) = P a

OnSome-bind :
    {A B : Type 0} (P : A → Type 0) (Q : B → Type 0) (x : Option A) (f : A → Option B)
    → OnSome P x
    → ((a : A) → P a → OnSome Q (f a))
    → OnSome Q (x >>= f)
OnSome-bind P Q none f p h = tt
OnSome-bind P Q (some a) f p h = h a p

OnSome-if :
    {A : Type 0} (P : A → Type 0) (b : Bool) (x y : Option A)
    → OnSome P x
    → OnSome P y
    → OnSome P (if b then x else y)
OnSome-if P true x y p q = p
OnSome-if P false x y p q = q

OnSome-trivial : {A : Type 0} (x : Option A) → OnSome (λ a. Unit) x
OnSome-trivial none = tt
OnSome-trivial (some a) = tt

-- Waking a task touches no queue.
insert_head-queue :
    (t : Addr) (k : Kernel)
    → OnSome (λ (k' : Kernel). k'.queue ≡ k.queue) (prio_ready_queue_insert_head t k)
unfolding prio_ready_queue_insert_head
insert_head-queue t k =
    OnSome-bind (λ (k' : Kernel). k'.queue ≡ k.queue) (λ (k' : Kernel). k'.queue ≡ k.queue) _ _
      (OnSome-if (λ (k' : Kernel). k'.queue ≡ k.queue) (t == null) none (some k) tt refl)
      λ k1 same.
        OnSome-bind (λ (h : Addr). Unit) (λ (k' : Kernel). k'.queue ≡ k.queue)
          (task_prio_queue (k1.tcb t).prio)
          (λ h. some (record k1 {
            links = list_insert_spec k1.links h t;
            map = bitmap_set k1.map (k1.tcb t).prio;
          }))
          (OnSome-trivial (task_prio_queue (k1.tcb t).prio)) λ h u. same

wake-queue : (q : Addr) (k : Kernel) → OnSome (λ (k' : Kernel). k'.queue ≡ k.queue) (msg_wake q k)
unfolding msg_wake msg_block_queue_delete
wake-queue q k =
    OnSome-if (λ (k' : Kernel). k'.queue ≡ k.queue) (is_list_last k.links q) _ _ refl
      (insert_head-queue (k.links.next q) (msg_block_queue_delete (k.links.next q) k))

-- The result that a queue in this state gives.
abbrev code_of : Queue → ℕ
code_of x = if x.count == x.length then full else true_code

store_code :
    (fuel q msg method : ℕ) (k : Kernel)
    → OnSome (λ (y : ℕ × Kernel). y.0 ≡ code_of (k.queue q)) (msg_store fuel q msg method k)
unfolding msg_store
store_code fuel q msg method k =
    let k2 = set_queue k q (record (k.queue q) { count = (k.queue q).count + 1 }) in
    let inserted : Option Links =
      (if method == fifo
        then list_insert_behind fuel k2.links (msg_head q) msg
        else some (list_insert_spec k2.links (msg_head q) msg)) in
    elim (Bool-cases ((k.queue q).count == (k.queue q).length)) [
      | inl e ↦ rw e refl
      | inr e ↦ rw e (
          OnSome-bind (λ (l : Links). Unit) (λ (y : ℕ × Kernel). y.0 ≡ true_code) inserted
            (λ l. some (true_code, record k2 { links = l })) (OnSome-trivial inserted) λ l u. refl)
    ]

put_code :
    (port : Port) (fuel q msg method : ℕ) (k : Kernel)
    → q ≢ null
    → msg ≢ null
    → (k.queue q).count ≤ (k.queue q).length
    → OnSome (λ (y : ℕ × Kernel). y.0 ≡ code_of (k.queue q)) (msg_put port fuel q msg method k)
unfolding msg_put
put_code port fuel q msg method k nq nm fits =
    let small : ltb (k.queue q).length (k.queue q).count ≡ false = ground (arith, fits) in
    let (sr, k0) = interrupt_disable port k in
    rw (==_ne q null nq, ==_ne msg null nm, small)
      (OnSome-bind (λ (k' : Kernel). k'.queue ≡ k.queue)
        (λ (y : ℕ × Kernel). y.0 ≡ code_of (k.queue q)) (msg_wake q k0) _ (wake-queue q k0)
        λ k1 same.
          OnSome-bind (λ (y : ℕ × Kernel). y.0 ≡ code_of (k1.queue q))
            (λ (y : ℕ × Kernel). y.0 ≡ code_of (k.queue q)) (msg_store fuel q msg method k1) _
            (store_code fuel q msg method k1)
            λ y e. e ∙ ap (λ (f : Addr → Queue). code_of (f q)) same)

-- The message, if the call of `msg_put` tells that it took it.
abbrev pub taken : Addr → Option (ℕ × Kernel) → List Addr
taken msg none = []
taken msg (some (code, k)) = if code == true_code then msg ∷ [] else []

taken_lem :
    (x : Queue) (msg : Addr) (y : Option (ℕ × Kernel)) {k' : Kernel}
    → OnSome (λ (y : ℕ × Kernel). y.0 ≡ code_of x) y
    → (y >>= λ z. some z.1) ≡ some k'
    → taken msg y ≡ (if not (x.count == x.length) then msg ∷ [] else [])
taken_lem x msg none p e = absurd (none-ne-some _ e)
taken_lem x msg (some (code, k)) p e = ground (arith, p)

pub put-taken :
    (port : Port) (fuel q msg method : ℕ) (k : Kernel) {k' : Kernel}
    → q ≢ null
    → msg ≢ null
    → (k.queue q).count ≤ (k.queue q).length
    → (msg_put port fuel q msg method k >>= λ z. some z.1) ≡ some k'
    → taken msg (msg_put port fuel q msg method k)
      ≡ (if not ((k.queue q).count == (k.queue q).length) then msg ∷ [] else [])
put-taken port fuel q msg method k nq nm fits e =
    taken_lem (k.queue q) msg (msg_put port fuel q msg method k)
      (put_code port fuel q msg method k nq nm fits) e
