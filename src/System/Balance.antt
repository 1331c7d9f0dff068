-- ===== src/System/Balance.antt =====
-- The units of a semaphore over a whole run.
use fos.Prelude.{
  ℕ, ◌+◌, ◌-◌, ◌≤◌, ◌≡◌, ◌⊎◌, ◌==◌, inl, inr, Bool-cases, true, arith, List, [], ◌∷◌, length, ap,
}
use fos.LinkedList.{Addr}
use fos.LinkedList.Shape.{Lists}
use fos.Kernel.{Kernel}
use fos.Sched.Models.{Models}
use fos.System.{Layout, World, Call, Runs, start, call}
use fos.System.Facts.{Facts, Sound}
use fos.System.Units.{gets_of, puts_of}
use fos.System.Safety.{call-Sound}

abbrev pub gets : Addr → List Call → ℕ
gets s [] = 0
gets s (c ∷ cs) = gets_of s c + gets s cs

abbrev pub puts : Addr → List Call → ℕ
puts s [] = 0
puts s (c ∷ cs) = puts_of s c + puts s cs

-- Units are left or tasks wait, and not both.
one_or_other :
    {o : Layout} {k : Kernel} {lists : Lists}
    → Facts o k lists
    → (s : Addr) → o.sem s ≡ true
    → ((k.sem s).count ≡ 0) ⊎ (length (lists s) ≡ 0)
one_or_other {k} f s hs = elim (Bool-cases ((k.sem s).count == 0)) [
  | inl none_left ↦ inl (ground (arith, none_left))
  | inr some_left ↦ inr (ap length (f.units s hs (ground (arith, some_left))))
]

module _ (world : World) {o : Layout} {k0 : Kernel} {lists0 : Lists} (g : Sound o k0 lists0)
    (s : Addr) (hs : o.sem s ≡ true) where
  -- Without saturation, the difference of units and waiting tasks goes with the calls.
  balance_lem :
      {k : Kernel} {cs : List Call}
      → Runs world o k0 cs k
      → (k0.sem s).count + puts s cs ≤ 0xffffffff
      → (lists : Lists) × Sound o k lists
        × ((k.sem s).count + gets s cs + length (lists0 s)
            ≡ (k0.sem s).count + puts s cs + length (lists s))
  balance_lem start max = (lists0, g, omega arith)
  balance_lem (call {cs = cs} r c allowed e) max =
      let (lists, g1, eq) = balance_lem r (omega (arith, max)) in
      let (lists', g', older, top, flows, units) =
        call-Sound world g1 c (allowed lists g1.models) e in
      (
        lists',
        g',
        elim (one_or_other g1.facts s hs) [
          | inl z ↦ omega (arith, eq, units.balance s hs (omega (arith, z, max)))
          | inr z ↦ omega (arith, eq, units.balance s hs (omega (arith, z, eq, max)))
        ],
      )

  -- Whatever has run from a sound kernel, in whatever order, and with fewer puts than would reach the
  -- limit of the count: a semaphore has as many units left as its first units and the puts exceed the
  -- gets and the tasks that waited at first, and as many tasks wait as these exceed those.
  pub Runs-balance :
      {k : Kernel} {cs : List Call}
      → Runs world o k0 cs k
      → (k0.sem s).count + puts s cs ≤ 0xffffffff
      → (lists : Lists) × Models o.head k lists
        × ((k.sem s).count ≡ (k0.sem s).count + puts s cs - (gets s cs + length (lists0 s)))
        × (length (lists s) ≡ gets s cs + length (lists0 s) - ((k0.sem s).count + puts s cs))
  Runs-balance r max =
      let (lists, g', eq) = balance_lem r max in
      elim (one_or_other g'.facts s hs) [
        | inl z ↦ (lists, g'.models, omega (arith, z, eq), omega (arith, z, eq))
        | inr z ↦ (lists, g'.models, omega (arith, z, eq), omega (arith, z, eq))
      ]
