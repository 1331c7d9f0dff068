-- ===== src/Sched/Init.antt =====
-- `prio_ready_queue_init` of kernel/prio_sched.c: the loop over the ready queues.
use fos.Prelude.{ℕ, zero, suc, ◌+◌, ◌<◌, ◌≤◌, ◌≡◌, refl, inl, inr, arith, Bool-cases, ◌==◌}
use fos.LinkedList.{Addr, Links, list_init}
use fos.Kernel.{Kernel}
use fos.Sched.{init_queues, prio_ready_queue_init}

init_queues_before :
    (n i : ℕ) (l : Links) (h : Addr) → h ≤ i → (init_queues n i l).next h ≡ l.next h
unfolding init_queues list_init
init_queues_before zero i l h le = refl
init_queues_before (suc n) i l h le =
    ground (arith, init_queues_before n (i + 1) (list_init l (i + 1)) h (omega arith))

init_queues_self :
    (n i : ℕ) (l : Links) (h : Addr) → i < h → h ≤ i + n → (init_queues n i l).next h ≡ h
unfolding init_queues list_init
init_queues_self zero i l h lt le = absurd (omega arith)
init_queues_self (suc n) i l h lt le = elim (Bool-cases (h == i + 1)) [
  | inl e ↦ ground (arith, e, init_queues_before n (i + 1) (list_init l (i + 1)) h)
  | inr ne ↦ ground (arith, ne, init_queues_self n (i + 1) (list_init l (i + 1)) h)
]

-- The head of every ready queue points to itself.
pub prio_ready_queue_init_self :
    (k : Kernel) (h : Addr) → 0 < h → h ≤ 32 → (prio_ready_queue_init k).links.next h ≡ h
unfolding prio_ready_queue_init
prio_ready_queue_init_self k h lt le = init_queues_self 32 0 k.links h lt (omega arith)
