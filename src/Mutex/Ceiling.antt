-- ===== src/Mutex/Ceiling.antt =====
-- `mutex_get` of kernel/mutex.c on a free mutex: the running task rises to the ceiling.
use fos.Prelude.{
  ℕ, ◌+◌, ◌<◌, ◌≡◌, ◌≢◌, refl, Bool, some, ◌∷◌, arith, update, ◌∈◌, has, remove, ap, ==_ne,
}
use fos.LinkedList.{Addr, Links, null}
use fos.PrioMap.{PrioMap}
use fos.LinkedList.Shape.{Lists, Loose, Loose-list_delete}
use fos.Kernel.{Kernel, Port, Mutex, true_code, set_prio}
use fos.Sched.Models.{ready, Models, Leaves, rebase}
use fos.Sched.Models.Queues.{delete-at, insert_head-at}
use fos.Mutex.{set_mutex, mutex_get, move_to_prio, prio_mutex}

-- The lists after task `c` has moved from priority `p` to the front of priority `r`.
abbrev pub moved : Lists → ℕ → ℕ → Addr → Lists
moved lists p r c =
    let out = update lists (p + 1) (remove c (ready lists p)) in
    update out (r + 1) (c ∷ ready out r)

-- A task in no list may change its priority.
set_prio-Models :
    {head : Addr → Bool} {k : Kernel} {lists : Lists}
    → Models head k lists
    → (t : Addr) (r : ℕ) → r < 32
    → Loose head lists t
    → Models head (set_prio k t r) lists
set_prio-Models v t r lt o = record {
  shape = v.shape;
  map = v.map;
  queued = λ p u hp i. ground (arith, v.queued p u hp i, o.free (p + 1) (v.statics p hp));
  prios = λ u. ground (arith, v.prios u);
  statics = v.statics;
  no_null = v.no_null;
}

module _ {head : Addr → Bool} {k : Kernel} {lists : Lists} (v : Models head k lists) where
  pub move_to_prio-Leaves :
      (c : Addr) (p r : ℕ)
      → p < 32
      → r < 32
      → c ∈ ready lists p
      → Leaves head (move_to_prio c r k) (set_prio k c r) (moved lists p r c)
  unfolding move_to_prio
  move_to_prio-Leaves c p r lt lt' i =
      let (l, m, e, v1) = delete-at v c p (v.queued p c lt i) i in
      let o = Loose-list_delete v.shape (p + 1) c (v.statics p lt) i in
      let ne : c ≢ null = λ z.
        ground (arith, v.no_null (p + 1) (v.statics p lt), ap (λ a. has a (ready lists p)) z) in
      let (l', m', e', v2) =
        insert_head-at (set_prio-Models v1 c r lt' o) c r (ground arith) o ne in
      (l', m', rw e e', v2)

-- What a mutex operation leaves of the other globals.
pub record Keeps (k k' : Kernel) (m c : Addr) : Type 0 where
  pub others : (a : Addr) → a ≢ m → k'.mutex a ≡ k.mutex a
  pub tasks : (t : Addr) → t ≢ c → k'.tcb t ≡ k.tcb t
  pub new_task : k'.new_task ≡ k.new_task
  pub sr : k'.sr ≡ k.sr

-- The kernel in which the running task has taken mutex `m`.
abbrev pub took : Kernel → Addr → Kernel
took k m =
    let x : Mutex = record (k.mutex m) { copy_prio = (k.tcb k.new_task).prio } in
    set_mutex (set_mutex (set_prio k k.new_task prio_mutex) m x) m (record x { enable = 0 })

pub mutex_get-took :
    (port : Port) (fuel : ℕ) {head : Addr → Bool} {k : Kernel} {lists : Lists}
    → Models head k lists
    → (m : Addr) (p : ℕ) → m ≢ null
    → (k.mutex m).enable ≢ 0
    → p < 32
    → k.new_task ∈ ready lists p
    → (l : Links) × (mp : PrioMap) × (mutex_get port fuel m k
        ≡ some (true_code, record (took k m) { links = l; map = mp }))
      × Models head
          (record (took k m) { links = l; map = mp })
          (moved lists p prio_mutex k.new_task)
unfolding mutex_get
mutex_get-took port fuel {k} v m p ne free lt i =
    let c = k.new_task in
    let x : Mutex = record (k.mutex m) { copy_prio = (k.tcb c).prio } in
    let k0 : Kernel = record (set_mutex k m x) { sr = (port.interrupt_disable k.sr).1 } in
    let (l, mp, e, v1) =
      move_to_prio-Leaves (rebase k0 v refl refl refl) c p prio_mutex lt (omega arith) i in
    (
      l,
      mp,
      ground (arith, ==_ne m null ne, ==_ne (k.mutex m).enable 0 free, e, port.restores k.sr),
      rebase (record (took k m) { links = l; map = mp }) v1 refl refl refl,
    )

-- A free mutex goes to the running task: the mutex is marked as taken and notes the priority of the
-- task, which moves to the front of the ceiling priority; the interrupt state, the running task,
-- other tasks and other mutexes stay as they were.
pub mutex_get-takes :
    (port : Port) (fuel : ℕ) {head : Addr → Bool} {k : Kernel} {lists : Lists}
    → Models head k lists
    → (m : Addr) (p : ℕ) → m ≢ null
    → (k.mutex m).enable ≢ 0
    → p < 32
    → k.new_task ∈ ready lists p
    → (k' : Kernel) × (mutex_get port fuel m k ≡ some (true_code, k'))
      × ((k'.mutex m) ≡ record (k.mutex m) { copy_prio = p; enable = 0 })
      × ((k'.tcb k.new_task).prio ≡ prio_mutex)
      × Keeps k k' m k.new_task
      × Models head k' (moved lists p prio_mutex k.new_task)
mutex_get-takes port fuel {k} v m p ne free lt i =
    let (l, mp, e, v1) = mutex_get-took port fuel v m p ne free lt i in
    (
      record (took k m) { links = l; map = mp },
      e,
      ground (arith, v.queued p k.new_task lt i),
      ground arith,
      record {
        others = λ a h. ground arith;
        tasks = λ t h. ground arith;
        new_task = refl;
        sr = refl;
      },
      v1,
    )
