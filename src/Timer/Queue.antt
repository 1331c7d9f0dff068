-- ===== src/Timer/Queue.antt =====
-- The tick queue of kernel/timer.c as a chain with a node in the middle, and the tasks that sleep
-- on its entries.
use mathlib.Core.Path.{subst, fun_ext}
use mathlib.Core.List.{append_assoc}
use fos.Prelude.{
  ◌≡◌, ◌≢◌, Bool, false, List, ◌∷◌, [], ◌++◌, arith, ◌==◌, update, ◌∈◌, ◌∉◌, has, remove, ap, ==_ne,
  has-append,
}
use fos.LinkedList.{Addr, Links, list_delete}
use fos.LinkedList.Chain.{Chain, head_not_mem}
use fos.LinkedList.Shape.{Lists}
use fos.Timer.Ages.{Sleeping}

-- Where the `next` of a node leads that has the nodes `ys` behind it.
abbrev pub next_of : Addr → List Addr → Addr
next_of y [] = y
next_of y (z ∷ zs) = z

pub next_of-first : (l : Links) (y : Addr) (ys : List Addr) → Chain l y ys → l.next y ≡ next_of y ys
next_of-first l y [] c = c
next_of-first l y (z ∷ zs) c = c.0

pub prev_ne : (l : Links) (h a : Addr) (xs : List Addr) → Chain l h xs → a ∈ xs → l.prev a ≢ a
prev_ne l h a [] c i = absurd (ground arith)
prev_ne l h a (x ∷ xs) (n, p, o, c) i = λ z. ground (arith, prev_ne l x a xs c)

-- A node in the middle of a chain.
pub Chain-middle :
    (l : Links) (h y : Addr) (done ys : List Addr)
    → Chain l h (done ++ y ∷ ys)
    → (l.next y ≡ next_of y ys)
      × (y ∉ ys)
      × (y ∉ (h ∷ done))
      × (remove y (done ++ y ∷ ys) ≡ done ++ ys)
Chain-middle l h y [] ys c =
    (next_of-first l y ys c.3, head_not_mem l y ys c.3, ground arith, ground arith)
Chain-middle l h y (d ∷ done) ys (n, p, o, c) =
    let (e, out, before, same) = Chain-middle l d y done ys c in
    (
      e,
      out,
      ground (arith, has-append h done (y ∷ ys)),
      ground (arith, head_not_mem l d (done ++ y ∷ ys) c),
    )

-- Deleting a node leaves its own `next`.
pub next-list_delete : (l : Links) (y : Addr) → l.prev y ≢ y → (list_delete l y).next y ≡ l.next y
unfolding list_delete
next-list_delete l y ne = ground arith

pub regroup :
    (done : List Addr) (y : Addr) (ys : List Addr) → (done ++ y ∷ []) ++ ys ≡ done ++ y ∷ ys
regroup done y ys = append_assoc done (y ∷ []) ys

pub not_here : (z y : Addr) (ys : List Addr) → z ∈ ys → y ∉ ys → (z == y) ≡ false
not_here z y ys i out = ==_ne z y (λ e. ground (arith, ap (λ a. has a ys) e))

pub Sleeping-to :
    {head : Addr → Bool} {f g : Lists} {cs ds : List Addr}
    → Sleeping head f cs
    → ((h : Addr) → f h ≡ g h)
    → cs ≡ ds
    → Sleeping head g ds
Sleeping-to {head} {f} {g} {cs} sl e ec =
    subst (λ xs. Sleeping head g xs) ec (subst (λ (L : Lists). Sleeping head L cs) (fun_ext e) sl)

pub out_rest : (c y : Addr) (done ys : List Addr) → c ∉ (done ++ y ∷ ys) → c ∉ (done ++ ys)
out_rest c y done ys out = ground (arith, has-append c done (y ∷ ys), has-append c done ys)

pub Sleeping-shrink :
    {head : Addr → Bool} (lists : Lists) (h : Addr) (xs ys : List Addr) {cs : List Addr}
    → Sleeping head (update lists h xs) cs
    → ((c : Addr) → c ∉ xs → c ∉ ys)
    → Sleeping head (update lists h ys) cs
Sleeping-shrink lists h xs ys sl sub = record {
  loose = λ c i. record {
    free = λ g hg. ground (arith, sub c, (sl.loose c i).free g hg);
    no_head = (sl.loose c i).no_head;
  };
  not_null = sl.not_null;
  nodup = sl.nodup;
}

pub Sleeping-woken :
    {head : Addr → Bool} {lists : Lists} {c : Addr} {cs : List Addr} (h : Addr)
    → Sleeping head lists (c ∷ cs)
    → Sleeping head (update lists h (lists h ++ c ∷ [])) cs
Sleeping-woken {lists} {c} {cs} h sl = record {
  loose = λ d i. record {
    free = λ g hg. ground (
      arith,
      (sl.loose d (ground arith)).free g hg,
      has-append d (lists h) (c ∷ []),
      not_here d c cs i sl.nodup.0,
    );
    no_head = (sl.loose d (ground arith)).no_head;
  };
  not_null = ground (arith, sl.not_null);
  nodup = sl.nodup.1;
}
