-- ===== src/System/Calls/Tasks.antt =====
-- One call of `task_prio_change` or `task_create`.
use fos.Prelude.{
  ℕ, ◌+◌, ◌<◌, ◌≡◌, ◌≢◌, ◌⊎◌, refl, inl, inr, true, [], ◌∷◌, ◌++◌, arith, ltb, Bool-cases, update,
  ◌∉◌, has-append, ◌==◌, ◌∈◌, has, ap, ==_iff,
}
use fos.LinkedList.{null}
use fos.LinkedList.Shape.{Lists, Loose}
use fos.Kernel.{Kernel, Tcb, tick_queue, delay, set_prio, system_word}
use fos.Sched.Models.{ready}
use fos.Task.{Words, set_tcb}
use fos.Task.Create.{task_create-queues}
use fos.Task.Prio.{task_prio_change-refused, task_prio_change-moves}
use fos.System.{Layout, World, do_task_prio_change, do_task_create, run}
use fos.System.Facts.{Sound, refact}
use fos.System.Moves.{moved-Facts, joined-Facts}
use fos.System.Streams.{still, messages_far}
use fos.System.Units.{level}
use fos.System.Steady.{steady}
use fos.System.Calls.{Kept, short}
use fos.System.Calls.Mutexes.{moved-Sound}

module _ (world : World) {o : Layout} {k : Kernel} {lists : Lists} (g : Sound o k lists) where
  refused-Kept :
      (prio : ℕ)
      → (prio ≡ 0) ⊎ (32 < prio)
      → Kept world o (do_task_prio_change k.new_task prio) k lists
  unfolding run
  refused-Kept prio out = (
    k,
    lists,
    rw (task_prio_change-refused k.new_task prio k out) refl,
    g,
    steady refl refl,
    λ no. absurd (ground arith),
    still (λ a. refl) (λ a. refl) (λ a ha. refl),
    level (λ a. refl) (λ a. refl) refl (λ a ha. refl),
  )

  changed-Kept :
      (prio : ℕ)
      → 0 < prio
      → prio < 32
      → k.new_task ≢ o.idle
      → Kept world o (do_task_prio_change k.new_task prio) k lists
  unfolding run
  changed-Kept prio pos lt' ni =
      let (p, lt, i) = g.running in
      let hp = g.models.statics p lt in
      let (l, m, e, v) = task_prio_change-moves g.models p prio lt pos lt' i in
      let f = moved-Facts g.facts p prio k.new_task lt lt' ni hp i in
      let k' : Kernel = record (set_prio k k.new_task prio) { links = l; map = m } in
      (
        k',
        _,
        rw e refl,
        moved-Sound world g p prio lt lt' i ni k' v refl (refact k' f refl refl refl refl refl),
        steady refl (ground (arith, lt, lt')),
        λ no. absurd (ground arith),
        still (λ a. refl) (λ a. refl) (λ a ha. ground (arith, lt, lt', messages_far o a ha)),
        level (λ a. refl) (λ a. refl) refl (λ a ha. ground (arith, lt, lt', o.sem_head a ha)),
      )

  pub task_prio_change-Kept :
      (prio : ℕ)
      → prio ≢ system_word
      → k.new_task ≢ o.idle
      → Kept world o (do_task_prio_change k.new_task prio) k lists
  task_prio_change-Kept prio other ni = elim (Bool-cases (ltb 0 prio)) [
    | inr zero_prio ↦ refused-Kept prio (inl (ground (arith, zero_prio)))
    | inl pos ↦ elim (Bool-cases (ltb prio 32)) [
      | inl lt ↦ changed-Kept prio (ground (arith, pos)) (ground (arith, lt)) ni
      | inr large ↦ refused-Kept prio (inr (ground (arith, large, other)))
    ]
  ]

  still_ready :
      (prio p t : ℕ)
      → k.new_task ∈ ready lists p
      → k.new_task ∈ update lists (prio + 1) (ready lists prio ++ t ∷ []) (p + 1)
  still_ready prio p t i = elim (Bool-cases (p + 1 == prio + 1)) [
    | inr ne ↦ ground (arith, i, ne)
    | inl e ↦ ground (
      arith,
      i,
      e,
      has-append k.new_task (ready lists prio) (t ∷ []),
      ap (λ h. has k.new_task (lists h)) ((==_iff (p + 1) (prio + 1)).0 e),
    )
  ]

  pub task_create-Kept :
      (tcb name fun arg stack stack_size prio state : ℕ) (mem : Words)
      → o.task tcb ≡ true
      → Loose o.head lists tcb
      → delay tcb ∉ lists tick_queue
      → tcb ≢ null
      → fun ≢ null
      → stack ≢ null
      → prio < 32
      → Kept world o (do_task_create tcb name fun arg stack stack_size prio state mem) k lists
  unfolding run
  task_create-Kept tcb name fun arg stack stack_size prio state mem ht loose awake nt nf ns lt =
      let hp = g.models.statics prio lt in
      let x : Tcb = record {
        stack_ptr = world.stack_init stack stack_size fun arg;
        name = name;
        prio = prio;
        state = state;
      } in
      let (l, m, e, v) =
        task_create-queues world.memset world.stack_init o.size g.models tcb name fun arg stack
          stack_size prio state mem nt nf ns lt loose (short world g (prio + 1) hp) in
      let k' : Kernel = record (set_tcb k tcb x) { links = l; map = m } in
      let (p, lp, i) = g.running in
      (
        k',
        _,
        rw e refl,
        record {
          models = v;
          running = (p, lp, still_ready prio p tcb i);
          facts =
              refact k' (joined-Facts g.facts prio tcb lt hp ht loose awake) refl refl refl refl
                refl;
        },
        steady refl (ground (arith, lt)),
        λ no. absurd (ground arith),
        still (λ a. refl) (λ a. refl) (λ a ha. ground (arith, lt, messages_far o a ha)),
        level (λ a. refl) (λ a. refl) refl (λ a ha. ground (arith, lt, o.sem_head a ha)),
      )
