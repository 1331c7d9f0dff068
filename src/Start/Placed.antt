-- ===== src/Start/Placed.antt =====
-- Where the tasks of the program stand in memory, and the lists after `main` of app/system_start.c.
use fos.Prelude.{
  ℕ, ◌<◌, ◌≡◌, ◌≢◌, refl, true, false, List, [], ◌∷◌, arith, ltb, ◌&&◌, ◌-◌, ◌==◌, if◌then◌else◌,
  has, ◌∈◌,
}
use fos.LinkedList.{Addr, null}
use fos.LinkedList.Shape.{Lists}
use fos.Kernel.{Kernel, delay}
use fos.Start.Boot.{head, only_idle}
use fos.Start.Main.{Static, Program}
use fos.System.{Layout}
use fos.System.Facts.{Facts}

abbrev pub tcbs : Program → List Addr
tcbs p = p.idle.tcb ∷ p.shell.tcb ∷ p.uip.tcb ∷ p.first.tcb ∷ p.second.tcb ∷ []

-- A TCB, with the delay behind it, apart from others.
abbrev pub Apart : Addr → List Addr → Type 0
Apart t [] = Unit
Apart t (u ∷ us) = (t ≢ u) × (t ≢ delay u) × (delay t ≢ u) × Apart t us

-- A task lies behind the heads and apart from others, and its function and its stack are there.
pub record Placed (size : ℕ) (t : Static) (others : List Addr) : Type 0 where
  pub far : 33 < t.tcb
  pub inside : delay t.tcb < size
  pub fun : t.fun ≢ null
  pub stack : t.stack ≢ null
  pub apart : Apart t.tcb others

-- The tasks of the program lie apart from each other in a memory of `size`.
pub record IsPlaced (size : ℕ) (p : Program) : Type 0 where
  pub idle : Placed size p.idle []
  pub shell : Placed size p.shell (p.idle.tcb ∷ [])
  pub uip : Placed size p.uip (p.shell.tcb ∷ p.idle.tcb ∷ [])
  pub first : Placed size p.first (p.uip.tcb ∷ p.shell.tcb ∷ p.idle.tcb ∷ [])
  pub second : Placed size p.second (p.first.tcb ∷ p.uip.tcb ∷ p.shell.tcb ∷ p.idle.tcb ∷ [])

-- The lists after `main`.
abbrev pub started : Program → Lists
started p h =
    if h == 5
    then p.second.tcb ∷ []
    else if h == 4
    then p.first.tcb ∷ []
    else if h == 30
    then p.uip.tcb ∷ []
    else if h == 31
    then p.shell.tcb ∷ []
    else only_idle p.idle.tcb h

pub behind :
    (size : ℕ) (p : Program)
    → IsPlaced size p
    → (t : Addr) → t ∈ tcbs p
    → (head t ≡ false) × (false ≡ false) × (false ≡ false)
behind size p place t h = (
  ground
      (arith, h, place.idle.far, place.shell.far, place.uip.far, place.first.far, place.second.far),
  refl,
  refl,
)

pub delays_behind :
    (size : ℕ) (p : Program)
    → IsPlaced size p
    → (t : Addr) → t ∈ tcbs p
    → (head (delay t) ≡ false)
      × (has (delay t) (tcbs p) ≡ false)
      × (false ≡ false)
      × (false ≡ false)
      × (delay t < size)
delays_behind size p place t h = (
  ground
      (arith, h, place.idle.far, place.shell.far, place.uip.far, place.first.far, place.second.far),
  ground (arith, h, place.shell.apart, place.uip.apart, place.first.apart, place.second.apart),
  refl,
  refl,
  ground (
    arith, h, place.idle.inside, place.shell.inside, place.uip.inside, place.first.inside,
    place.second.inside,
  ),
)

-- The layout of a program that has no semaphore, mutex, queue or timer of its own.
abbrev pub layout : (size : ℕ) (p : Program) → IsPlaced size p → Layout
layout size p place = record {
  size = size;
  head = head;
  sem = λ a. false;
  mutex = λ a. false;
  queue = λ a. false;
  stores = λ a. false;
  task = λ a. has a (tcbs p);
  timer = λ a. false;
  message = λ a. false;
  idle = p.idle.tcb;
  ticks = refl;
  sem_head = λ s h. absurd (ground arith);
  mutex_head = λ m h. absurd (ground arith);
  queue_head = λ q h. absurd (ground arith);
  stores_far = λ q h. absurd (ground arith);
  apart = λ s q hs hq. absurd (ground arith);
  task_node = λ t h. behind size p place t h;
  delay_node = λ t h. delays_behind size p place t h;
}

small_lem : (size : ℕ) (p : Program) → IsPlaced size p → (h a : Addr) → a ∈ started p h → a < size
small_lem size p place h a i = ground (
  arith, place.idle.inside, place.shell.inside, place.uip.inside, place.first.inside,
  place.second.inside,
)

roles_lem :
    (p : Program) (h a : Addr)
    → a ∈ started p h
    → head h ≡ true
    → (if h == 33 then (ltb 0 a && has (a - 1) (tcbs p)) else has a (tcbs p)) ≡ true
roles_lem p h a i hh = ground arith

pub started-Facts :
    (size : ℕ) (p : Program) (place : IsPlaced size p) (k : Kernel)
    → k.schedule_is_lock ≡ false
    → Facts (layout size p place) k (started p)
started-Facts size p place k open_lock = record {
  unlocked = open_lock;
  idle = ground arith;
  small = λ h a hh i. small_lem size p place h a i;
  units = λ s hs u. absurd (ground arith);
  units_max = λ s hs. absurd (ground arith);
  counted = λ q hq. absurd (ground arith);
  fits = λ q hq. absurd (ground arith);
  roles = λ h a hh i. roles_lem p h a i hh;
  naps = λ t ht i. absurd (ground arith);
  ceiling = λ m hm. absurd (ground arith);
  timers = λ a ha i. absurd (ground arith);
}
