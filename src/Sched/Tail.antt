-- ===== src/Sched/Tail.antt =====
-- What `prio_ready_queue_insert_tail` of kernel/prio_sched.c leaves alone.
use fos.Prelude.{
  ℕ, ◌+◌, ◌<◌, ◌≡◌, ◌≢◌, Bool, some, none, ◌∷◌, arith, length, ◌∉◌, ap, Option, ==_ne,
}
use fos.LinkedList.{Addr, Links, null, list_insert, list_insert_behind}
use fos.LinkedList.Chain.{last, list_last-last, Same, Same-list_insert}
use fos.LinkedList.Shape.{Lists}
use fos.PrioMap.{PrioMap}
use fos.Kernel.{Kernel}
use fos.Sched.{prio_ready_queue_insert_tail}
use fos.Sched.Models.{ready, Models}

links_of : Kernel → Option Kernel → Links
links_of k none = k.links
links_of k (some k') = k'.links

-- A node that is not the task, nor the head or a task of its queue, keeps its pointers.
pub Same-insert_tail :
    {head : Addr → Bool} {k : Kernel} {lists : Lists}
    → Models head k lists
    → (fuel : ℕ) (t a : Addr) (l : Links) (m : PrioMap) → t ≢ null
    → length (ready lists (k.tcb t).prio) < fuel
    → prio_ready_queue_insert_tail fuel t k ≡ some (record k { links = l; map = m })
    → a ∉ (t ∷ ((k.tcb t).prio + 1) ∷ ready lists (k.tcb t).prio)
    → Same l k.links a
unfolding prio_ready_queue_insert_tail list_insert_behind links_of
Same-insert_tail {k} {lists} v fuel t a l m ne room e out =
    let p = (k.tcb t).prio in
    let xs = ready lists p in
    let last_node =
      list_last-last fuel k.links (p + 1) xs (v.shape.chain (p + 1) (v.statics p (v.prios t)))
        room in
    let same : l ≡ list_insert k.links (last (p + 1) xs) t =
      ground (arith, last_node, v.prios t, ==_ne t null ne, ap (links_of k) e) in
    rw same (Same-list_insert k.links (p + 1) t a xs out)
