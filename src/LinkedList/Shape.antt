-- ===== src/LinkedList/Shape.antt =====
-- All lists of the memory at once: a map from heads to sequences that the operations of list.c
-- refine. Nodes that stand in no list may hold anything.
use fos.Prelude.{
  is_nil, ℕ, ◌<◌, ◌≡◌, inl, inr, Bool, true, false, some, List, [], ◌∷◌, ◌++◌, arith, ◌==◌, ==_iff,
  Bool-cases, update, length, ◌∈◌, ◌∉◌, ◌⊎◌, sym, remove, has-append, has-remove,
}
use mathlib.Core.Path.{subst}
use fos.LinkedList.{
  Addr, Links, is_list_last, list_insert, list_insert_spec, list_delete, list_insert_behind,
}
use fos.LinkedList.Chain.{
  Chain-is_nil, Chain, last, frame, list_last-last, Same, Same-list_insert_spec, Same-list_insert,
  Same-list_delete, not-mem-remove, Chain-list_insert_spec, Chain-list_insert, Chain-list_delete,
}

-- What each head leads to.
abbrev pub Lists : Type 0
Lists = Addr → List Addr

-- Memory `l` holds exactly the lists `lists` at the addresses that `head` marks: each is a chain,
-- no head stands in a list, and no node stands in two lists.
pub record Shape (head : Addr → Bool) (l : Links) (lists : Lists) : Type 0 where
  pub chain : (h : Addr) → head h ≡ true → Chain l h (lists h)
  pub plain : (h a : Addr) → head h ≡ true → a ∈ lists h → head a ≡ false
  pub apart : (h g a : Addr) → head h ≡ true → head g ≡ true → a ∈ lists h → a ∈ lists g → h ≡ g

-- A node that no list holds, and that is no head.
pub record Loose (head : Addr → Bool) (lists : Lists) (node : Addr) : Type 0 where
  pub free : (h : Addr) → head h ≡ true → node ∉ lists h
  pub no_head : head node ≡ false

module _ {head : Addr → Bool} {l : Links} {lists : Lists} (s : Shape head l lists) where
  -- Another list is not touched by a change at `h`, its list and a loose node.
  others :
      (m : Links) (h g node : Addr)
      → head h ≡ true
      → head g ≡ true
      → (g == h) ≡ false
      → (node ∈ lists h) ⊎ Loose head lists node
      → ((a : Addr) → a ∉ (node ∷ h ∷ lists h) → Same m l a)
      → Chain m g (lists g)
  others m h g node hh hg ne w same =
      frame l m g (lists g) (λ a i. (same a (out a i)).0) (λ a i. (same a (out a (ground arith))).1)
        (s.chain g hg)
    where
      out_of : (a : Addr) → a ∈ (g ∷ lists g) → (a == node) ≡ false
      out_of a i = elim w [
        | inl m ↦
            ground
              (arith, s.plain h a hh, s.plain g a hg, s.plain h node hh, s.apart h g node hh hg)
        | inr o ↦ ground (arith, o.free g hg, o.no_head)
      ]

      out : (a : Addr) → a ∈ (g ∷ lists g) → a ∉ (node ∷ h ∷ lists h)
      out a i =
          ground
            (arith, out_of a i, s.plain h a hh, s.plain g a hg, s.plain h g hh, s.apart h g a hh hg)

  node_plain :
      (h node : Addr) → head h ≡ true → (node ∈ lists h) ⊎ Loose head lists node → head node ≡ false
  node_plain h node hh (inl m) = s.plain h node hh m
  node_plain h node hh (inr o) = o.no_head

  node_home :
      (h node k : Addr)
      → head h ≡ true
      → head k ≡ true
      → (node ∈ lists h) ⊎ Loose head lists node
      → node ∈ lists k
      → k ≡ h
  node_home h node k hh hk (inl m) i = s.apart k h node hk hh i m
  node_home h node k hh hk (inr o) i = absurd (ground (arith, o.free k hk))

  out : (h node : Addr) → head h ≡ true → Loose head lists node → node ∉ (h ∷ lists h)
  out h node hh o = ground (arith, o.free h hh, o.no_head)

  -- One list changes from `lists h` to `xs`, which holds nothing but its old nodes and `node`.
  changed :
      (m : Links) (h node : Addr) (xs : List Addr)
      → head h ≡ true
      → (node ∈ lists h) ⊎ Loose head lists node
      → ((a : Addr) → a ∈ xs → a ∈ (node ∷ lists h))
      → Chain m h xs
      → ((a : Addr) → a ∉ (node ∷ h ∷ lists h) → Same m l a)
      → Shape head m (update lists h xs)
  changed m h node xs hh w sub c same = record {
    chain = λ g hg. elim (Bool-cases (g == h)) [
      | inl e ↦ rw e (subst (λ x. Chain m x xs) (sym ((==_iff g h).0 e)) c)
      | inr ne ↦ rw ne (others m h g node hh hg ne w same)
    ];
    plain =
        λ g a hg i. ground (arith, sub a, s.plain g a hg, s.plain h a hh, node_plain h node hh w);
    apart = λ g k a hg hk i j. ground (
      arith,
      sub a,
      s.apart g k a hg hk,
      s.apart h k a hh hk,
      s.apart g h a hg hh,
      node_home h node g hh hg w,
      node_home h node k hh hk w,
    );
  }

  -- The test for an empty list: its head points to itself.
  pub is_list_last-is_nil : (h : Addr) → head h ≡ true → is_list_last l h ≡ is_nil (lists h)
  is_list_last-is_nil h hh = Chain-is_nil l h (lists h) (s.chain h hh)

  -- `list_insert_spec` puts a loose node in front.
  pub Shape-list_insert_spec :
      (h node : Addr)
      → head h ≡ true
      → Loose head lists node
      → Shape head (list_insert_spec l h node) (update lists h (node ∷ lists h))
  Shape-list_insert_spec h node hh o =
      changed (list_insert_spec l h node) h node (node ∷ lists h) hh (inr o) (λ a i. i)
        (Chain-list_insert_spec l h node (lists h) (s.chain h hh) (out h node hh o))
        (λ a. Same-list_insert_spec l h node a (lists h) (s.chain h hh))

  -- `list_insert_behind` ends, given fuel for the length of the list, and puts a loose node last.
  pub Shape-list_insert_behind :
      (fuel : ℕ) (h node : Addr)
      → head h ≡ true
      → Loose head lists node
      → length (lists h) < fuel
      → (m : Links) × (list_insert_behind fuel l h node ≡ some m)
        × Shape head m (update lists h (lists h ++ node ∷ []))
  unfolding list_insert_behind
  Shape-list_insert_behind fuel h node hh o f = (
    list_insert l (last h (lists h)) node,
    rw (list_last-last fuel l h (lists h) (s.chain h hh) f),
    changed (list_insert l (last h (lists h)) node) h node (lists h ++ node ∷ []) hh (inr o)
        (λ a i. ground (arith, has-append a (lists h) (node ∷ [])))
        (Chain-list_insert l h node (lists h) (s.chain h hh) (out h node hh o))
        (λ a. Same-list_insert l h node a (lists h)),
  )

  -- `list_delete` takes a node out of the list that holds it, and leaves every other list.
  pub Shape-list_delete :
      (h node : Addr)
      → head h ≡ true
      → node ∈ lists h
      → Shape head (list_delete l node) (update lists h (remove node (lists h)))
  Shape-list_delete h node hh i =
      changed (list_delete l node) h node (remove node (lists h)) hh (inl i)
        (λ a j. ground (arith, has-remove node a (lists h)))
        (Chain-list_delete l h node (lists h) (s.chain h hh) i)
        (λ a. Same-list_delete l h node a (lists h) (s.chain h hh) i)

  -- A node that has been taken out is loose.
  pub Loose-list_delete :
      (h node : Addr)
      → head h ≡ true
      → node ∈ lists h
      → Loose head (update lists h (remove node (lists h))) node
  Loose-list_delete h node hh i = record {
    free = λ g hg. elim (Bool-cases (g == h)) [
      | inl e ↦ rw e (not-mem-remove l h node (lists h) (s.chain h hh))
      | inr ne ↦ rw ne (ground (arith, s.apart g h node hg hh))
    ];
    no_head = s.plain h node hh i;
  }
