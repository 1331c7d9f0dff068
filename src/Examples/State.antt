-- ===== src/Examples/State.antt =====
-- A small kernel state on which the theorems are tried: tasks 200, 202 and 204 are ready at the
-- priorities 3, 5 and 31, task 206 waits on semaphore 100, task 208 on mutex 110, task 210 on queue
-- 120, which holds message 300. Semaphore 102, mutex 112 and queue 122 are idle. Task 200 runs.
use fos.Prelude.{
  ℕ, ◌+◌, ◌*◌, ◌<◌, ◌≡◌, ◌≢◌, refl, Bool, true, false, ◌&&◌, ◌||◌, [], ◌∷◌, arith, ltb, ◌==◌,
  if◌then◌else◌, update,
}
use fos.LinkedList.{Addr, list_insert_spec}
use fos.LinkedList.Shape.{Lists, Loose, Shape-list_insert_spec}
use fos.PrioMap.{bitmap_set}
use fos.Kernel.{Kernel, Port}
use fos.Sched.Models.{Models, empty-Models}
use fos.Sched.Models.Queues.{insert_head-Models, blocked-Models}
use fos.Sched.Fetch.{Models-ext, Highest}

-- The heads.
abbrev pub head : Addr → Bool
head a =
    (ltb 0 a && ltb a 34)
    || ((ltb 99 a && ltb a 104) || ((ltb 109 a && ltb a 114) || (ltb 119 a && ltb a 124)))

abbrev pub prio_of : Addr → ℕ
prio_of t = if t == 202 then 5 else if t == 204 then 31 else 3

-- A processor with one bit of interrupt state.
abbrev pub port : Port
port = record {
  interrupt_disable = λ s. (s, 0);
  interrupt_enable = λ cpu_sr s. cpu_sr;
  restores = λ s. refl;
}

abbrev pub start : Kernel
start = record {
  links = record { prev = λ a. a; next = λ a. a };
  map = record { y = 0; c = λ b. 0 };
  tcb = λ t. record { stack_ptr = t * 10; name = 0; prio = prio_of t; state = 1 };
  tick = λ t. record {
    style = 2;
    timeout = 0;
    tcb = 0;
    func = 0;
    func_arg = 0;
    period = 0;
    timeout_copy = 0;
  };
  sem = λ s. record { count = if s == 102 then 2 else 0; name = 0; tcb = 0 };
  mutex = λ m. record { enable = if m == 112 then 1 else 0; name = 0; copy_prio = 3; tcb = 0 };
  queue = λ q. record { length = 2; count = if q == 120 then 1 else 0; name = 0 };
  msg = λ m. record { kind = 0; length = 5; buff = m + 1000 };
  new_task = 200;
  old_task = 204;
  schedule_is_lock = false;
  fos_tick = 7;
  sr = 1;
  context = 2000;
}

pub start-Models : Models head start (λ h. [])
start-Models =
    empty-Models (λ h hh. refl) refl (λ b. refl) (λ t. ground arith) (λ p hp. ground arith)

-- One more task in front of its ready queue.
abbrev pub add : Kernel → Addr → Kernel
add k t = record k {
  links = list_insert_spec k.links (prio_of t + 1) t;
  map = bitmap_set k.map (prio_of t);
}

-- One more node in front of another list.
abbrev pub hang : Kernel → Addr → Addr → Kernel
hang k h t = record k { links = list_insert_spec k.links h t }

abbrev pub k3 : Kernel
k3 = add (add (add start 204) 202) 200

abbrev pub lists3 : Lists
lists3 h =
    if h == 4 then 200 ∷ [] else if h == 6 then 202 ∷ [] else if h == 32 then 204 ∷ [] else []

pub k3-Models : Models head k3 lists3
k3-Models =
    let v1 =
      insert_head-Models start-Models 204 (record { free = λ h hh. refl; no_head = refl })
        (omega arith) in
    let v2 =
      insert_head-Models v1 202 (record { free = λ h hh. ground arith; no_head = refl })
        (omega arith) in
    let v3 =
      insert_head-Models v2 200 (record { free = λ h hh. ground arith; no_head = refl })
        (omega arith) in
    Models-ext v3 (λ h. ground arith)

abbrev pub boot : Kernel
boot = hang (hang (hang (hang k3 100 206) 110 208) 120 210) 121 300

abbrev pub lists : Lists
lists h =
    if h == 100
    then 206 ∷ []
    else if h == 110
    then 208 ∷ []
    else if h == 120
    then 210 ∷ []
    else if h == 121
    then 300 ∷ []
    else lists3 h

-- One more node in front of a list that is no ready queue.
pub hang-Models :
    {k : Kernel} {ls : Lists}
    → Models head k ls
    → (h t : Addr) → head h ≡ true
    → 32 < h
    → Loose head ls t
    → t ≢ 0
    → Models head (hang k h t) (update ls h (t ∷ ls h))
hang-Models {k} {ls} v h t hh far o ne =
    blocked-Models v (list_insert_spec k.links h t) h (t ∷ ls h) hh far
      (Shape-list_insert_spec v.shape h t hh o) (ground (arith, v.no_null h hh))

pub boot-Models : Models head boot lists
boot-Models =
    let v1 =
      hang-Models k3-Models 100 206 refl (omega arith)
        (record { free = λ h hh. ground arith; no_head = refl }) (omega arith) in
    let v2 =
      hang-Models v1 110 208 refl (omega arith)
        (record { free = λ h hh. ground arith; no_head = refl }) (omega arith) in
    let v3 =
      hang-Models v2 120 210 refl (omega arith)
        (record { free = λ h hh. ground arith; no_head = refl }) (omega arith) in
    let v4 =
      hang-Models v3 121 300 refl (omega arith)
        (record { free = λ h hh. ground arith; no_head = refl }) (omega arith) in
    Models-ext v4 (λ h. ground arith)

-- Task 200 is the one to run.
pub boot-Highest : Highest lists 3 200 []
boot-Highest = record { in_range = omega arith; first = refl; none_above = λ q h. ground arith }
