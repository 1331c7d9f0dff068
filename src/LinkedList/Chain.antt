-- ===== src/LinkedList/Chain.antt =====
-- What the nodes of one list spell out in memory, and what list.c does to it.
use fos.Prelude.{
  is_nil, ℕ, zero, suc, ◌<◌, ◌≡◌, refl, inl, inr, some, List, [], ◌∷◌, ◌++◌, arith, ◌==◌,
  Bool-cases, length, ◌∈◌, ◌∉◌, remove, has-append, has-remove,
}
use fos.LinkedList.{
  is_list_last, Addr, Links, list_init, list_insert, list_insert_spec, list_delete, list_last,
}

-- From `h` the `next` pointers lead through the distinct nodes `xs` to a node that points to
-- itself, and each node's `prev` is the node before it.
abbrev pub Chain : Links → Addr → List Addr → Type 0
Chain l h [] = l.next h ≡ h
Chain l h (x ∷ xs) = (l.next h ≡ x) × (l.prev x ≡ h) × (h ∉ (x ∷ xs)) × Chain l x xs

abbrev pub last : Addr → List Addr → Addr
last h [] = h
last h (x ∷ xs) = last x xs

pub last-mem : (h : Addr) (xs : List Addr) → last h xs ∈ (h ∷ xs)
last-mem h [] = ground arith
last-mem h (x ∷ xs) = ground (arith, last-mem x xs)

-- A chain survives a change that spares the `next` of its nodes and the `prev` of all but its head.
pub frame :
    (l m : Links) (h : Addr) (xs : List Addr)
    → ((a : Addr) → a ∈ (h ∷ xs) → m.next a ≡ l.next a)
    → ((a : Addr) → a ∈ xs → m.prev a ≡ l.prev a)
    → Chain l h xs
    → Chain m h xs
frame l m h [] sn sp c = ground (arith, sn h)
frame l m h (x ∷ xs) sn sp (n, p, out, c) = (
  ground (arith, sn h),
  ground (arith, sp x),
  out,
  frame l m x xs (λ a i. sn a (ground arith)) (λ a i. sp a (ground arith)) c,
)

pub head_not_mem : (l : Links) (h : Addr) (xs : List Addr) → Chain l h xs → h ∉ xs
head_not_mem l h [] c = refl
head_not_mem l h (x ∷ xs) c = c.2

pub next-mem : (l : Links) (h a : Addr) (xs : List Addr) → Chain l h xs → a ∈ xs → l.next a ∈ xs
next-mem l h a [] c i = absurd (ground arith)
next-mem l h a (x ∷ []) c i = ground arith
next-mem l h a (x ∷ y ∷ xs) (n, p, out, c) i = ground (arith, next-mem l x a (y ∷ xs) c)

pub prev-mem :
    (l : Links) (h a : Addr) (xs : List Addr) → Chain l h xs → a ∈ xs → l.prev a ∈ (h ∷ xs)
prev-mem l h a [] c i = absurd (ground arith)
prev-mem l h a (x ∷ xs) (n, p, out, c) i = ground (arith, prev-mem l x a xs c)

pub not-mem-remove : (l : Links) (h a : Addr) (xs : List Addr) → Chain l h xs → a ∉ remove a xs
not-mem-remove l h a [] c = refl
not-mem-remove l h a (x ∷ xs) (n, p, o, c) =
    ground (arith, head_not_mem l x xs c, not-mem-remove l x a xs c)

pub Chain-list_init : (l : Links) (h : Addr) → Chain (list_init l h) h []
unfolding list_init
Chain-list_init l h = ground arith

pub list_last-last :
    (fuel : ℕ) (l : Links) (h : Addr) (xs : List Addr)
    → Chain l h xs
    → length xs < fuel
    → list_last fuel l h ≡ some (last h xs)
unfolding list_last
list_last-last zero l h xs c f = absurd (omega arith)
list_last-last (suc fuel) l h [] c f = ground arith
list_last-last (suc fuel) l h (x ∷ xs) (n, p, out, c) f =
    ground (arith, list_last-last fuel l x xs c (omega arith))

pub Chain-list_insert_spec :
    (l : Links) (h node : Addr) (xs : List Addr)
    → Chain l h xs
    → node ∉ (h ∷ xs)
    → Chain (list_insert_spec l h node) h (node ∷ xs)
unfolding list_insert_spec
Chain-list_insert_spec l h node [] c out = ground arith
Chain-list_insert_spec l h node (x ∷ xs) (n, p, o, c) out = (
  ground arith,
  ground arith,
  ground arith,
  (
    ground arith,
    ground arith,
    ground arith,
    frame l (list_insert_spec l h node) x xs (λ a i. ground arith)
        (λ a i. ground (arith, head_not_mem l x xs c)) c,
  ),
)

pub Chain-list_insert :
    (l : Links) (h node : Addr) (xs : List Addr)
    → Chain l h xs
    → node ∉ (h ∷ xs)
    → Chain (list_insert l (last h xs) node) h (xs ++ node ∷ [])
unfolding list_insert
Chain-list_insert l h node [] c out = ground arith
Chain-list_insert l h node (x ∷ xs) (n, p, o, c) out = (
  ground (arith, last-mem x xs),
  ground arith,
  ground (arith, has-append h xs (node ∷ [])),
  Chain-list_insert l x node xs c (ground arith),
)

-- The list without a node that stands in it.
pub Chain-list_delete :
    (l : Links) (h node : Addr) (xs : List Addr)
    → Chain l h xs
    → node ∈ xs
    → Chain (list_delete l node) h (remove node xs)
unfolding list_delete
Chain-list_delete l h node [] c i = absurd (ground arith)
Chain-list_delete l h node (x ∷ []) c i = ground arith
Chain-list_delete l h node (x ∷ y ∷ xs) (n, p, o, c) i = elim (Bool-cases (node == x)) [
  | inl e ↦ rw e (
    ground arith,
    ground arith,
    ground arith,
    frame l (list_delete l node) y xs (λ a j. ground arith)
        (λ a j. ground (arith, head_not_mem l y xs c.3)) c.3,
  )
  | inr ne ↦ rw ne (
    ground (arith, prev-mem l x node (y ∷ xs) c),
    ground (arith, next-mem l x node (y ∷ xs) c),
    ground (arith, has-remove node h (y ∷ xs)),
    Chain-list_delete l x node (y ∷ xs) c (ground arith),
  )
]

-- The memory at `a` is as before.
abbrev pub Same : Links → Links → Addr → Type 0
Same m l a = (m.next a ≡ l.next a) × (m.prev a ≡ l.prev a)

-- Each operation writes to its node, its head and the nodes of its list alone.
pub Same-list_insert_spec :
    (l : Links) (h node a : Addr) (xs : List Addr)
    → Chain l h xs
    → a ∉ (node ∷ h ∷ xs)
    → Same (list_insert_spec l h node) l a
unfolding list_insert_spec
Same-list_insert_spec l h node a [] c out = ground arith
Same-list_insert_spec l h node a (x ∷ xs) c out = ground arith

pub Same-list_insert :
    (l : Links) (h node a : Addr) (xs : List Addr)
    → a ∉ (node ∷ h ∷ xs)
    → Same (list_insert l (last h xs) node) l a
unfolding list_insert
Same-list_insert l h node a xs out = ground (arith, last-mem h xs)

pub Same-list_delete :
    (l : Links) (h node a : Addr) (xs : List Addr)
    → Chain l h xs
    → node ∈ xs
    → a ∉ (node ∷ h ∷ xs)
    → Same (list_delete l node) l a
unfolding list_delete
Same-list_delete l h node a xs c i out =
    ground (arith, prev-mem l h node xs c i, next-mem l h node xs c i)

pub Chain-is_nil :
    (l : Links) (h : Addr) (xs : List Addr) → Chain l h xs → is_list_last l h ≡ is_nil xs
Chain-is_nil l h [] c = ground arith
Chain-is_nil l h (x ∷ xs) c = ground arith
