-- ===== src/Mutex/Waiters.antt =====
-- `mutex_get` on a taken mutex, and `mutex_put`, of kernel/mutex.c.
use fos.Prelude.{
  ℕ, ◌+◌, ◌<◌, ◌≤◌, ◌≡◌, ◌≢◌, refl, Bool, true, false, List, ◌∷◌, [], ◌++◌, arith, ◌==◌, update,
  length, ◌∈◌, ap, is_nil,
}
use mathlib.Core.Path.{subst}
use fos.LinkedList.{Addr, null}
use fos.LinkedList.Shape.{Lists, is_list_last-is_nil}
use fos.Kernel.{Kernel, Port, true_code, set_prio}
use fos.Sched.Models.{ready, Models, rebase}
use fos.Sched.Fetch.{Highest}
use fos.Sched.Switch.{Switches, switch-rebase, schedule_raw}
use fos.Sched.Block.{blocked, woken, block_lem, wake_lem, first_blocked}
use fos.Mutex.{set_mutex, mutex_get, mutex_put}
use fos.Mutex.Ceiling.{moved, move_to_prio-Leaves}

not_zero : (s : Addr) → 32 < s → (s == null) ≡ false
not_zero s h = ground arith

module _ (port : Port) (fuel : ℕ) {head : Addr → Bool} {k : Kernel} {lists : Lists}
    (v : Models head k lists) (m : Addr) (hm : head m ≡ true) (far : 32 < m)
    (unlocked : k.schedule_is_lock ≡ false) where
  -- A taken mutex blocks the running task last on its list, and the processor goes to the first task
  -- of the highest priority that is ready then, if the scheduler is unlocked; the result is TRUE.
  pub mutex_get-blocks :
      {p q : ℕ} {t : Addr} {ts : List Addr}
      → (k.mutex m).enable ≡ 0
      → p < 32
      → k.new_task ∈ ready lists p
      → length (lists m) < fuel
      → Highest (blocked lists p k.new_task m) q t ts
      → length (t ∷ ts) ≤ fuel
      → Switches head
          (mutex_get port fuel m k)
          true_code
          t
          (set_mutex k m (record (k.mutex m) { tcb = k.new_task }))
          (update (blocked lists p k.new_task m) (q + 1) (ts ++ t ∷ []))
  unfolding mutex_get
  mutex_get-blocks {p} {t} zero lt i room high room' =
      let k0 : Kernel = record (set_mutex k m (record (k.mutex m) { tcb = k.new_task })) {
        sr = (port.interrupt_disable k.sr).1;
      } in
      let (l, l', mp, e1, e2, v1) =
        block_lem (rebase k0 v refl refl refl) m hm far fuel k.new_task p lt i room in
      let (l2, m2, e3, v2) = schedule_raw port fuel v1 high room' unlocked in
      (
        l2,
        m2,
        ground (arith, zero, e1, e2, e3, port.restores k.sr, not_zero m far),
        switch-rebase t (rebase _ v2 refl refl refl),
      )

  -- The running task gives the mutex up: it falls back to the priority that the mutex noted, at the
  -- front; the mutex is marked as free, also where a task waits; the task that waits longest moves to
  -- the front of its ready queue; and, with the scheduler unlocked, the processor goes to the highest
  -- ready priority.
  pub mutex_put-wakes :
      {p r q : ℕ} {w t : Addr} {ws ts : List Addr}
      → p < 32
      → k.new_task ∈ ready lists p
      → (k.mutex m).copy_prio ≡ r
      → r < 32
      → lists m ≡ w ∷ ws
      → (let lists' = woken (moved lists p r k.new_task) (k.tcb w).prio w m ws in
          Highest lists' q t ts)
      → length (t ∷ ts) ≤ fuel
      → Switches head
          (mutex_put port fuel m k)
          true_code
          t
          (set_mutex (set_prio k k.new_task r) m (record (k.mutex m) { enable = 1 }))
          (update (woken (moved lists p r k.new_task) (k.tcb w).prio w m ws) (q + 1) (ts ++ t ∷ []))
  unfolding mutex_put
  mutex_put-wakes {p} {r} {w} {t} {ws} lt i er lt' e high room =
      let c = k.new_task in
      let k0 : Kernel = record k { sr = (port.interrupt_disable k.sr).1 } in
      let (l, mp, e1, v1) = move_to_prio-Leaves (rebase k0 v refl refl refl) c p r lt lt' i in
      let k1 : Kernel = record (set_mutex (set_prio k0 c r) m (record (k.mutex m) { enable = 1 })) {
        links = l;
        map = mp;
      } in
      let v1' = rebase k1 v1 refl refl refl in
      let e' : moved lists p r c m ≡ w ∷ ws = ground arith in
      let other : c ≢ w = λ z. apart (subst (λ a. a ∈ ready lists p) z i) in
      let prio : (k1.tcb w).prio ≡ (k.tcb w).prio = ground arith in
      let (next, ne, _) = first_blocked v1' m hm far w ws e' in
      let (l2, m2, e2, v2) = wake_lem v1' m hm far w ws (k.tcb w).prio e' prio in
      let (l3, m3, e3, v3) =
        schedule_raw port fuel
          (rebase (record k1 { links = l2; map = m2; sr = k.sr }) v2 refl refl refl) high room
          unlocked in
      (
        l3,
        m3,
        ground (
          arith,
          er,
          e1,
          e2,
          e3,
          next,
          port.restores k.sr,
          not_zero m far,
          is_list_last-is_nil v1'.shape m hm,
          ap is_nil e',
        ),
        switch-rebase t v3,
      )
    where
      apart : w ∈ ready lists p → ⊥
      apart j =
          let same : p + 1 ≡ m =
            v.shape.apart (p + 1) m w (v.statics p lt) hm j (first_blocked v m hm far w ws e).2 in
          omega arith

  -- With nobody waiting, `mutex_put` only takes the priority back and marks the mutex as free before
  -- the processor goes to the highest ready priority.
  pub mutex_put_alone :
      {p r q : ℕ} {t : Addr} {ts : List Addr}
      → p < 32
      → k.new_task ∈ ready lists p
      → (k.mutex m).copy_prio ≡ r
      → r < 32
      → lists m ≡ []
      → Highest (moved lists p r k.new_task) q t ts
      → length (t ∷ ts) ≤ fuel
      → Switches head
          (mutex_put port fuel m k)
          true_code
          t
          (set_mutex (set_prio k k.new_task r) m (record (k.mutex m) { enable = 1 }))
          (update (moved lists p r k.new_task) (q + 1) (ts ++ t ∷ []))
  unfolding mutex_put
  mutex_put_alone {p} {r} {t} lt i er lt' e high room =
      let c = k.new_task in
      let k0 : Kernel = record k { sr = (port.interrupt_disable k.sr).1 } in
      let (l, mp, e1, v1) = move_to_prio-Leaves (rebase k0 v refl refl refl) c p r lt lt' i in
      let k1 : Kernel = record (set_mutex (set_prio k0 c r) m (record (k.mutex m) { enable = 1 })) {
        links = l;
        map = mp;
      } in
      let v1' = rebase k1 v1 refl refl refl in
      let e' : moved lists p r c m ≡ [] = ground arith in
      let (l3, m3, e3, v3) =
        schedule_raw port fuel (rebase (record k1 { sr = k.sr }) v1' refl refl refl) high room
          unlocked in
      (
        l3,
        m3,
        ground (
          arith,
          er,
          e1,
          e3,
          port.restores k.sr,
          not_zero m far,
          is_list_last-is_nil v1'.shape m hm,
          ap is_nil e',
        ),
        switch-rebase t v3,
      )
