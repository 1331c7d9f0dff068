-- ===== src/Sched/Models.antt =====
-- What the memory of the kernel stands for: a list for each head, and the map of ready priorities.
pub mod Queues
use fos.Prelude.{
  ap, is_nil, is_nil-mem, ℕ, ◌+◌, ◌*◌, ◌<◌, ◌≡◌, ◌≢◌, refl, inl, inr, Bool, true, false, not, ◌&&◌,
  Option, some, List, [], ◌∷◌, ◌++◌, arith, ltb, Bool-cases, if◌then◌else◌, update, length, ◌∈◌,
  ◌∉◌, remove, has-append, has-remove,
}
use mathlib.Core.Path.{subst}
use fos.LinkedList.{Addr, null, Links, is_list_last, list_insert_spec, list_delete}
use fos.LinkedList.Shape.{
  Lists, Shape, Loose, Shape-list_insert_spec, Shape-list_insert_behind, Shape-list_delete,
  is_list_last-is_nil,
}
use fos.PrioMap.{PrioMap, bitmap_set, bitmap_clear}
use fos.PrioMap.Bytes.{test_bit, test_bit-zero}
use fos.PrioMap.Set.{Holds, Holds-bitmap_set, Holds-bitmap_clear}
use fos.Kernel.{Kernel}
use fos.Sched.{prio_ready_queue_insert_head, prio_ready_queue_insert_tail, prio_ready_queue_delete}

-- The tasks that are ready at a priority.
abbrev pub ready : Lists → ℕ → List Addr
ready lists p = lists (p + 1)

abbrev pub is_ready : Lists → ℕ → Bool
is_ready lists p = ltb p 32 && not (is_nil (ready lists p))

-- The memory of `k` holds the lists `lists`, the map holds the priorities whose queue is not empty,
-- a task stands in the queue of its priority, and every priority indexes `task_prio_queue`.
pub record Models (head : Addr → Bool) (k : Kernel) (lists : Lists) : Type 0 where
  pub shape : Shape head k.links lists
  pub map : Holds k.map (is_ready lists)
  pub queued : (p t : ℕ) → p < 32 → t ∈ ready lists p → (k.tcb t).prio ≡ p
  pub prios : (t : Addr) → (k.tcb t).prio < 32
  pub statics : (p : ℕ) → p < 32 → head (p + 1) ≡ true
  pub no_null : (h : Addr) → head h ≡ true → null ∉ lists h

-- An operation ends, changes nothing but list nodes and the map, and leaves the lists `lists`.
abbrev pub Leaves : (Addr → Bool) → Option Kernel → Kernel → Lists → Type 0
Leaves head o k lists =
    (l : Links) × (m : PrioMap) × (o ≡ some (record k { links = l; map = m }))
    × Models head (record k { links = l; map = m }) lists

-- The map depends on the marks of priorities below 64 alone.
pub Holds-ext :
    {m : PrioMap} {f g : ℕ → Bool} → ((p : ℕ) → p < 64 → f p ≡ g p) → Holds m f → Holds m g
Holds-ext e h = record {
  y_byte = h.y_byte;
  c_byte = h.c_byte;
  low = λ b a hb ha. ground (arith, h.low b a hb ha, e (b * 8 + a) (omega arith));
  high = h.high;
}

-- The other globals do not matter.
pub rebase :
    {head : Addr → Bool} {k : Kernel} {lists : Lists} (k' : Kernel)
    → Models head k lists
    → k'.links ≡ k.links
    → k'.map ≡ k.map
    → k'.tcb ≡ k.tcb
    → Models head k' lists
rebase {head} {lists} k' v el em et = record {
  shape = rw el v.shape;
  map = rw em v.map;
  queued = λ p t. rw et (v.queued p t);
  prios = rw et v.prios;
  statics = v.statics;
  no_null = v.no_null;
}

-- No task at all: every head points to itself, and the map is empty.
pub empty-Models :
    {head : Addr → Bool} {k : Kernel}
    → ((h : Addr) → head h ≡ true → k.links.next h ≡ h)
    → k.map.y ≡ 0
    → ((b : ℕ) → k.map.c b ≡ 0)
    → ((t : Addr) → (k.tcb t).prio < 32)
    → ((p : ℕ) → p < 32 → head (p + 1) ≡ true)
    → Models head k (λ h. [])
empty-Models {k} self y c prios statics = record {
  shape = record {
    chain = λ h hh. self h hh;
    plain = λ h a hh i. absurd (ground arith);
    apart = λ h g a hh hg i j. absurd (ground arith);
  };
  map = record {
    y_byte = omega (arith, y);
    c_byte = λ b hb. omega (arith, c b);
    low = λ b a hb ha. ground (arith, test_bit-zero a ha, ap (λ x. test_bit x a) (c b));
    high = λ b hb. ground (arith, test_bit-zero b hb, ap (λ x. test_bit x b) y, c b);
  };
  queued = λ p t hp i. absurd (ground arith);
  prios = prios;
  statics = statics;
  no_null = λ h hh. refl;
}
