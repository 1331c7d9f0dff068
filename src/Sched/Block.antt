-- ===== src/Sched/Block.antt =====
-- Two moves that the kernel's synchronisation files share: the running task goes from its ready
-- queue to the end of a block list, and the first task of a block list goes to the front of its
-- ready queue.
use fos.Prelude.{
  ℕ, ◌+◌, ◌<◌, ◌≡◌, ◌≢◌, Bool, true, some, List, ◌∷◌, [], ◌++◌, arith, update, length, ◌∈◌, has,
  has-append, has-remove, remove, ap,
}
use mathlib.Core.Path.{subst}
use fos.LinkedList.{Addr, Links, null, list_insert_behind, list_delete}
use fos.LinkedList.Chain.{Chain}
use fos.LinkedList.Shape.{Lists, Loose-list_delete, Shape-list_insert_behind, Shape-list_delete}
use fos.PrioMap.{PrioMap}
use fos.Kernel.{Kernel}
use fos.Sched.{prio_ready_queue_delete, prio_ready_queue_insert_head}
use fos.Sched.Models.{ready, Models}
use fos.Sched.Models.Queues.{delete-at, insert_head-at, blocked-Models}
use fos.Sched.Fetch.{Models-ext}

-- The lists after task `c` of priority `p` has blocked on `h`.
abbrev pub blocked : Lists → ℕ → Addr → Addr → Lists
blocked lists p c h = update (update lists (p + 1) (remove c (ready lists p))) h (lists h ++ c ∷ [])

-- The lists after the first task `w` of `h`, of priority `p`, has been woken.
abbrev pub woken : Lists → ℕ → Addr → Addr → List Addr → Lists
woken lists p w h ws = update (update lists h ws) (p + 1) (w ∷ ready lists p)

module _ {head : Addr → Bool} {k : Kernel} {lists : Lists} (v : Models head k lists) (h : Addr)
    (hh : head h ≡ true) (far : 32 < h) where
  pub block_lem :
      (fuel : ℕ) (c : Addr) (p : ℕ)
      → p < 32
      → c ∈ ready lists p
      → length (lists h) < fuel
      → (l l' : Links) × (m : PrioMap) × (prio_ready_queue_delete c k
          ≡ some (record k { links = l; map = m }))
        × (list_insert_behind fuel l h c ≡ some l')
        × Models head (record k { links = l'; map = m }) (blocked lists p c h)
  block_lem fuel c p lt i room =
      let (l, m, e, v1) = delete-at v c p (v.queued p c lt i) i in
      let o = Loose-list_delete v.shape (p + 1) c (v.statics p lt) i in
      let (l', e', s) = Shape-list_insert_behind v1.shape fuel h c hh o (ground arith) in
      let here : update lists (p + 1) (remove c (ready lists p)) h ≡ lists h = ground arith in
      (
        l,
        l',
        m,
        e,
        e',
        Models-ext
            (blocked-Models v1 l' h (update lists (p + 1) (remove c (ready lists p)) h ++ c ∷ []) hh
              far s
              (ground (
                arith,
                here,
                has-append null (update lists (p + 1) (remove c (ready lists p)) h) (c ∷ []),
                v1.no_null h hh,
                v.no_null (p + 1) (v.statics p lt),
                ap (λ a. has a (ready lists p)),
              )))
            (λ g. ground (arith, here)),
      )

  -- The first task of a block list.
  pub first_blocked :
      (w : Addr) (ws : List Addr)
      → lists h ≡ w ∷ ws
      → (k.links.next h ≡ w) × (w ≢ null) × (w ∈ lists h)
  first_blocked w ws e =
      let c : Chain k.links h (w ∷ ws) = subst (λ xs. Chain k.links h xs) e (v.shape.chain h hh) in
      let i : w ∈ lists h = rw e (ground arith) in
      (c.0, λ z. ground (arith, v.no_null h hh, ap (λ a. has a (lists h)) z), i)

  pub wake_lem :
      (w : Addr) (ws : List Addr) (p : ℕ)
      → lists h ≡ w ∷ ws
      → (k.tcb w).prio ≡ p
      → (l : Links) × (m : PrioMap) × (prio_ready_queue_insert_head w
            (record k { links = list_delete k.links w })
          ≡ some (record k { links = l; map = m }))
        × Models head (record k { links = l; map = m }) (woken lists p w h ws)
  wake_lem w ws p e ep =
      let (_, ne, i) = first_blocked w ws e in
      let lt : p < 32 = ground (arith, v.prios w) in
      let rest : remove w (lists h) ≡ ws = rw e (ground arith) in
      let v1 =
        blocked-Models v (list_delete k.links w) h (remove w (lists h)) hh far
          (Shape-list_delete v.shape h w hh i)
          (ground (arith, has-remove w null (lists h), v.no_null h hh)) in
      let (l, m, e2, v2) = insert_head-at v1 w p ep (Loose-list_delete v.shape h w hh i) ne in
      (l, m, e2, Models-ext v2 (λ g. ground (arith, rest)))
