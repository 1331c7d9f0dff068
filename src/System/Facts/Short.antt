-- ===== src/System/Facts/Short.antt =====
-- The length of lists of different nodes in a memory.
use fos.Prelude.{
  ℕ, zero, suc, ◌+◌, ◌<◌, ◌≤◌, refl, inl, inr, List, [], ◌∷◌, arith, ◌==◌, Bool-cases, length, ◌∈◌,
  ◌∉◌, remove, has-remove, has-append, length-append, ◌++◌,
}
use fos.LinkedList.{Addr, Links, null}
use fos.LinkedList.Chain.{Chain, head_not_mem}
use fos.Timer.Ages.{IsNodup}

pub Chain-IsNodup : (l : Links) (h : Addr) (xs : List Addr) → Chain l h xs → IsNodup xs
Chain-IsNodup l h [] c = tt
Chain-IsNodup l h (x ∷ xs) (n, p, out, c) = (head_not_mem l x xs c, Chain-IsNodup l x xs c)

remove-IsNodup : (a : Addr) (xs : List Addr) → IsNodup xs → IsNodup (remove a xs)
remove-IsNodup a [] d = tt
remove-IsNodup a (x ∷ xs) (out, d) = elim (Bool-cases (a == x)) [
  | inl e ↦ rw e d
  | inr ne ↦ rw ne (ground (arith, out, has-remove a x xs), remove-IsNodup a xs d)
]

remove_gone : (a : Addr) (xs : List Addr) → IsNodup xs → a ∉ remove a xs
remove_gone a [] d = refl
remove_gone a (x ∷ xs) (out, d) = ground (arith, out, remove_gone a xs d)

length-remove_le : (a : Addr) (xs : List Addr) → length xs ≤ suc (length (remove a xs))
length-remove_le a [] = omega arith
length-remove_le a (x ∷ xs) = ground (arith, length-remove_le a xs)

IsNodup-short :
    (n : ℕ) (xs : List Addr) → IsNodup xs → ((a : Addr) → a ∈ xs → a < n) → length xs ≤ n
IsNodup-short zero [] d b = omega arith
IsNodup-short zero (x ∷ xs) d b = absurd (ground (arith, b x))
IsNodup-short (suc n) xs d b =
    let rest : length (remove n xs) ≤ n =
      IsNodup-short n (remove n xs) (remove-IsNodup n xs d) (λ a i. elim (Bool-cases (a == n)) [
        | inl e ↦ absurd (ground (arith, remove_gone n xs d))
        | inr ne ↦ ground (arith, b a, has-remove n a xs)
      ]) in
    omega (arith, length-remove_le n xs)

-- A chain without null in a memory of `size` addresses.
pub Chain-short :
    (l : Links) (h size : Addr) (xs : List Addr)
    → Chain l h xs
    → null ∉ xs
    → 0 < size
    → ((a : Addr) → a ∈ xs → a < size)
    → length xs < size
Chain-short l h size xs c out pos b =
    IsNodup-short size (null ∷ xs) (out, Chain-IsNodup l h xs c) (λ a i. ground (arith, b a))

append-IsNodup :
    (xs ys : List Addr)
    → IsNodup xs
    → IsNodup ys
    → ((a : Addr) → a ∈ xs → a ∉ ys)
    → IsNodup (xs ++ ys)
append-IsNodup [] ys dx dy apart = dy
append-IsNodup (x ∷ xs) ys (out, dx) dy apart = (
  ground (arith, has-append x xs ys, out, apart x),
  append-IsNodup xs ys dx dy (λ a i. apart a (ground (arith, i))),
)

-- The same for two lists that share no node.
pub append-short :
    (size : Addr) (xs ys : List Addr)
    → IsNodup xs
    → IsNodup ys
    → ((a : Addr) → a ∈ xs → a ∉ ys)
    → null ∉ xs
    → null ∉ ys
    → 0 < size
    → ((a : Addr) → a ∈ xs → a < size)
    → ((a : Addr) → a ∈ ys → a < size)
    → length xs + length ys < size
append-short size xs ys dx dy apart nx ny pos bx by =
    let short : length (null ∷ xs ++ ys) ≤ size =
      IsNodup-short size (null ∷ (xs ++ ys))
        (ground (arith, has-append null xs ys, nx, ny), append-IsNodup xs ys dx dy apart)
        (λ a i. ground (arith, has-append a xs ys, bx a, by a)) in
    omega (arith, length-append xs ys)
