-- ===== src/Semaphore/Blocking.antt =====
-- `sem_get` and `sem_put` of kernel/semaphore.c on the level of the lists.
use fos.Prelude.{
  ℕ, ◌+◌, ◌-◌, ◌<◌, ◌≤◌, ◌≡◌, ◌≢◌, refl, Bool, true, false, some, List, ◌∷◌, [], ◌++◌, arith, ◌==◌,
  if◌then◌else◌, update, length, Bool-cases, inl, inr, ◌∈◌, ap, ==_ne, is_nil,
}
use fos.LinkedList.{Addr, null, is_list_last}
use fos.LinkedList.Shape.{Lists, is_list_last-is_nil}
use fos.Kernel.{Kernel, Port, true_code}
use fos.Sched.Models.{ready, Models, rebase}
use fos.Sched.Fetch.{Highest}
use fos.Sched.Switch.{Switches, switch-rebase, schedule_raw}
use fos.Sched.Block.{blocked, woken, block_lem, wake_lem, first_blocked}
use fos.Semaphore.{set_sem, sem_get, sem_put}

not_zero : (s : Addr) → 32 < s → (s == null) ≡ false
not_zero s h = ground arith

-- A semaphore with a free unit gives it out, and nothing else changes.
pub sem_get-free :
    (port : Port) (fuel : ℕ) (s : Addr) (k : Kernel)
    → s ≢ null
    → 0 < (k.sem s).count
    → sem_get port fuel s k
      ≡ some (true_code, set_sem k s (record (k.sem s) { count = (k.sem s).count - 1 }))
unfolding sem_get
sem_get-free port fuel s k ne pos = ground (arith, port.restores k.sr)

module _ (port : Port) (fuel : ℕ) {head : Addr → Bool} {k : Kernel} {lists : Lists}
    (v : Models head k lists) (s : Addr) (hs : head s ≡ true) (far : 32 < s)
    (unlocked : k.schedule_is_lock ≡ false) where
  -- With no unit left, `sem_get` blocks the running task last on the semaphore, and the processor
  -- goes to the first task of the highest priority that is ready then, if the scheduler is unlocked.
  pub sem_get-blocks :
      {p q : ℕ} {t : Addr} {ts : List Addr}
      → (k.sem s).count ≡ 0
      → p < 32
      → k.new_task ∈ ready lists p
      → length (lists s) < fuel
      → Highest (blocked lists p k.new_task s) q t ts
      → length (t ∷ ts) ≤ fuel
      → Switches head
          (sem_get port fuel s k)
          true_code
          t
          (set_sem k s (record (k.sem s) { tcb = k.new_task }))
          (update (blocked lists p k.new_task s) (q + 1) (ts ++ t ∷ []))
  unfolding sem_get
  sem_get-blocks {p} {q} {t} {ts} zero lt i room high room' =
      let k0 : Kernel = record (set_sem k s (record (k.sem s) { tcb = k.new_task })) {
        sr = (port.interrupt_disable k.sr).1;
      } in
      let (l, l', m, e1, e2, v1) =
        block_lem (rebase k0 v refl refl refl) s hs far fuel k.new_task p lt i room in
      let (l2, m2, e3, v2) = schedule_raw port fuel v1 high room' unlocked in
      (
        l2,
        m2,
        ground (arith, zero, e1, e2, e3, port.restores k.sr, not_zero s far),
        switch-rebase t (rebase _ v2 refl refl refl),
      )

  -- `sem_put` hands its unit to the task that waits longest: the task goes to the front of its ready
  -- queue, the count stays, and, with the scheduler unlocked, the processor goes to the highest ready
  -- priority.
  pub sem_put-wakes :
      {q : ℕ} {w t : Addr} {ws ts : List Addr}
      → lists s ≡ w ∷ ws
      → Highest (woken lists (k.tcb w).prio w s ws) q t ts
      → length (t ∷ ts) ≤ fuel
      → Switches head
          (sem_put port fuel s k)
          true_code
          t
          k
          (update (woken lists (k.tcb w).prio w s ws) (q + 1) (ts ++ t ∷ []))
  unfolding sem_put
  sem_put-wakes {w} {t} {ws} e high room =
      let k0 : Kernel = record k { sr = (port.interrupt_disable k.sr).1 } in
      let (next, ne, _) = first_blocked v s hs far w ws e in
      let (l, m, e1, v1) = wake_lem (rebase k0 v refl refl refl) s hs far w ws _ e refl in
      let (l2, m2, e3, v2) =
        schedule_raw port fuel (rebase (record k { links = l; map = m }) v1 refl refl refl) high
          room unlocked in
      (
        l2,
        m2,
        ground (
          arith,
          next,
          ==_ne w null ne,
          e1,
          e3,
          port.restores k.sr,
          not_zero s far,
          is_list_last-is_nil v.shape s hs,
          ap is_nil e,
        ),
        switch-rebase t v2,
      )

  last : lists s ≡ [] → is_list_last k.links s ≡ true
  last e = ground (arith, is_list_last-is_nil v.shape s hs, ap is_nil e)

  -- With nobody waiting `sem_put` adds a unit, unless the count is at its 32-bit limit, and the
  -- processor goes to the highest ready priority, if the scheduler is unlocked.
  pub sem_put-counts :
      {q : ℕ} {t : Addr} {ts : List Addr}
      → lists s ≡ []
      → Highest lists q t ts
      → length (t ∷ ts) ≤ fuel
      → Switches head
          (sem_put port fuel s k)
          true_code
          t
          (if (k.sem s).count == 0xffffffff
            then k
            else set_sem k s (record (k.sem s) { count = (k.sem s).count + 1 }))
          (update lists (q + 1) (ts ++ t ∷ []))
  unfolding sem_put
  sem_put-counts {q} {t} {ts} e high room = elim (Bool-cases ((k.sem s).count == 0xffffffff)) [
    | inl max ↦
        let (l, m, e3, v2) = schedule_raw port fuel v high room unlocked in
        rw max (
          l,
          m,
          ground (arith, max, e3, port.restores k.sr, last e, not_zero s far),
          switch-rebase t v2,
        )
    | inr less ↦
        let k1 : Kernel = set_sem k s (record (k.sem s) { count = (k.sem s).count + 1 }) in
        let (l, m, e3, v2) =
          schedule_raw port fuel (rebase k1 v refl refl refl) high room unlocked in
        rw less (
          l,
          m,
          ground (arith, less, e3, port.restores k.sr, last e, not_zero s far),
          switch-rebase t v2,
        )
  ]
