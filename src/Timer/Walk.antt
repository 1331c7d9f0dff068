-- ===== src/Timer/Walk.antt =====
-- The whole walk of `hardware_timer` of kernel/timer.c over the tick queue, with entries that leave
-- the queue under it.
use fos.Prelude.{
  ℕ, zero, suc, ◌+◌, ◌<◌, ◌≡◌, refl, inl, inr, Bool, true, false, Option, some, List, ◌∷◌, [], ◌++◌,
  arith, if◌then◌else◌, update, length, has, ap, Bool-cases, sym, ◌∙◌,
}
use fos.LinkedList.{Addr, Links}
use fos.LinkedList.Shape.{Lists}
use fos.PrioMap.{PrioMap}
use fos.Kernel.{Kernel, Tick, Msg, ◌>>=◌, tick_queue}
use fos.Sched.{prio_ready_queue_insert_tail}
use fos.Sched.Models.{ready, Models, rebase}
use fos.Sched.Fetch.{Models-ext}
use fos.Timer.{tick_walk, tick_step}
use fos.Timer.Ages.{wakes, stays, aged, kept, sleepers, fire, wake_all, Effect}
use fos.Timer.Queue.{regroup}
use fos.Timer.Step.{fired_one, step_stays, step_fires, step_wakes}
use fos.Timer.Position.{Position, middle, Position-stays, removed, Position-fires, Position-wakes}

-- The callbacks are taken to return, and to change nothing of the kernel but message memory.
module _ (call : ℕ → ℕ → Kernel → Option Kernel) (effect : Effect)
    (quiet : (f a : ℕ) (k : Kernel) → call f a k ≡ some (record k { msg = effect f a k.msg }))
    (fuel : ℕ) where
  -- Where it ends.
  abbrev pub Walked :
      (Addr → Bool)
      → (Addr → Tick)
      → Option Kernel
      → Kernel
      → Lists
      → List Addr
      → List Addr
      → Type 0
  Walked head tick0 o k lists done ys =
      (l : Links) × (m : PrioMap) × (tk : Addr → Tick) × (o
        ≡ some (record k { links = l; map = m; tick = tk; msg = fire effect tick0 ys k.msg }))
      × ((z : Addr) → tk z ≡ (if has z ys then aged (tick0 z) else k.tick z))
      × Models head (record k { links = l; map = m; tick = tk; msg = fire effect tick0 ys k.msg })
          (update (wake_all k.tcb (sleepers tick0 ys) lists) tick_queue (done ++ kept tick0 ys))

  walk-end :
      {head : Addr → Bool} {tick0 : Addr → Tick} {k : Kernel} {lists : Lists} (rounds tmp : ℕ)
      (done : List Addr)
      → Position fuel head tick0 k lists tmp done []
      → Walked head tick0 (tick_walk call fuel (suc rounds) tmp k) k lists done []
  unfolding tick_walk fire kept sleepers wake_all
  walk-end {k} rounds tmp done pos =
      (k.links, k.map, k.tick, ground (arith, pos.leads), λ z. refl, pos.models)

  -- The step at the node, the rest of the walk, and what the two do together.
  module _ {head : Addr → Bool} (ht : head tick_queue ≡ true) {tick0 : Addr → Tick} {k : Kernel}
      {lists : Lists} {tmp y : Addr} {done ys : List Addr}
      (pos : Position fuel head tick0 k lists tmp done (y ∷ ys)) (rounds : ℕ) where
    walk-next :
        tick_walk call fuel (suc rounds) tmp k
        ≡ (tick_step call fuel y k >>= tick_walk call fuel rounds y)
    unfolding tick_walk
    walk-next = ground (arith, pos.leads, pos.ahead)

    same : k.tick y ≡ tick0 y
    same = pos.fresh y (ground arith)

    msg_after : Addr → Msg
    msg_after = fired_one effect (k.tick y) k.msg

    fire-cons : fire effect tick0 (y ∷ ys) k.msg ≡ fire effect tick0 ys msg_after
    unfolding fire fired_one msg_after
    fire-cons = rw same refl

    walk-step :
        (k1 : Kernel) {o : Option Kernel}
        → tick_step call fuel y k ≡ some k1
        → tick_walk call fuel rounds y k1 ≡ o
        → tick_walk call fuel (suc rounds) tmp k ≡ o
    walk-step k1 e e' = walk-next ∙ ap (λ x. x >>= tick_walk call fuel rounds y) e ∙ e'

    refire :
        (l : Links) (m : PrioMap) (tk : Addr → Tick)
        → some (record k { links = l; map = m; tick = tk; msg = fire effect tick0 ys msg_after })
          ≡ some
              (record k { links = l; map = m; tick = tk; msg = fire effect tick0 (y ∷ ys) k.msg })
    refire l m tk =
        ap (λ (g : Addr → Msg). some (record k { links = l; map = m; tick = tk; msg = g }))
          (sym fire-cons)

    walk-stays :
        stays (tick0 y) ≡ true
        → ((tk : Addr → Tick)
            → Position fuel head tick0
                (record k { tick = tk; msg = msg_after })
                lists
                y
                (done ++ y ∷ [])
                ys
            → Walked head tick0
                (tick_walk call fuel rounds y (record k { tick = tk; msg = msg_after }))
                (record k { tick = tk; msg = msg_after })
                lists
                (done ++ y ∷ [])
                ys)
        → Walked head tick0 (tick_walk call fuel (suc rounds) tmp k) k lists done (y ∷ ys)
    unfolding sleepers kept msg_after
    walk-stays s rest =
        let (tk, e, at) = step_stays call effect quiet fuel y k (rw same s) in
        let (l, m, tk', e', at', v') = rest tk (Position-stays fuel ht pos tk msg_after at s) in
        (
          l,
          m,
          tk',
          walk-step _ e (e' ∙ refire l m tk'),
          λ z. ground (arith, at z, at' z, same, middle fuel ht pos),
          Models-ext (rebase _ v' refl refl refl)
              (λ h. ground (arith, s, regroup done y (kept tick0 ys))),
        )

    walk-fires :
        stays (tick0 y) ≡ false
        → wakes (tick0 y) ≡ false
        → (Position fuel head tick0
              (record k { links = removed fuel ht pos; msg = msg_after })
              lists
              y
              done
              ys
            → Walked head tick0
                (tick_walk call fuel rounds y
                  (record k { links = removed fuel ht pos; msg = msg_after }))
                (record k { links = removed fuel ht pos; msg = msg_after })
                lists
                done
                ys)
        → Walked head tick0 (tick_walk call fuel (suc rounds) tmp k) k lists done (y ∷ ys)
    unfolding sleepers kept msg_after
    walk-fires s w rest =
        let (l, m, tk', e', at', v') = rest (Position-fires fuel ht pos msg_after w) in
        (
          l,
          m,
          tk',
          walk-step _ (step_fires call effect quiet fuel y k (rw same s) (rw same w))
              (e' ∙ refire l m tk'),
          λ z. ground (arith, at' z, same, middle fuel ht pos, s, w),
          Models-ext (rebase _ v' refl refl refl) (λ h. ground (arith, s, w)),
        )

    walk-wakes :
        wakes (tick0 y) ≡ true
        → ((l : Links) (m : PrioMap)
            → (let c = (tick0 y).tcb in
                let p = (k.tcb c).prio in
                let k1 : Kernel = record k { links = l; map = m; msg = msg_after } in
                let lists1 = update lists (p + 1) (ready lists p ++ c ∷ []) in
                Position fuel head tick0 k1 lists1 y done ys
                → Walked head tick0 (tick_walk call fuel rounds y k1) k1 lists1 done ys))
        → Walked head tick0 (tick_walk call fuel (suc rounds) tmp k) k lists done (y ∷ ys)
    unfolding sleepers kept msg_after wake_all
    walk-wakes w rest =
        let (l1, m1, e1, pos1) = Position-wakes fuel ht pos msg_after w in
        let (l, m, tk', e', at', v') = rest l1 m1 pos1 in
        (
          l,
          m,
          tk',
          walk-step _
              (step_wakes call effect quiet fuel y k (rw same w)
                ∙ ap
                    (λ (τ : Tick).
                      prio_ready_queue_insert_tail fuel τ.tcb
                        (record k { links = removed fuel ht pos; msg = msg_after }))
                    same
                ∙ e1)
              (e' ∙ refire l m tk'),
          λ z. ground (arith, at' z, same, middle fuel ht pos, w),
          Models-ext (rebase _ v' refl refl refl) (λ h. ground (arith, w)),
        )

  -- The walk ends, and has treated every entry that was to come.
  pub walk_lem :
      {head : Addr → Bool} (ht : head tick_queue ≡ true) {tick0 : Addr → Tick} (rounds : ℕ)
      {k : Kernel} {lists : Lists} (tmp : Addr) (done ys : List Addr)
      → Position fuel head tick0 k lists tmp done ys
      → length ys < rounds
      → Walked head tick0 (tick_walk call fuel rounds tmp k) k lists done ys
  walk_lem ht zero tmp done ys pos f = absurd (omega arith)
  walk_lem ht (suc rounds) tmp done [] pos f = walk-end rounds tmp done pos
  walk_lem ht {tick0} (suc rounds) {k} {lists} tmp done (y ∷ ys) pos f =
      elim (Bool-cases (stays (tick0 y))) [
        | inl s ↦
            walk-stays ht pos rounds s
              (λ tk pos1. walk_lem ht rounds y (done ++ y ∷ []) ys pos1 (omega arith))
        | inr s ↦ elim (Bool-cases (wakes (tick0 y))) [
          | inl w ↦
              walk-wakes ht pos rounds w
                (λ l m pos1. walk_lem ht rounds y done ys pos1 (omega arith))
          | inr w ↦
              walk-fires ht pos rounds s w (λ pos1. walk_lem ht rounds y done ys pos1 (omega arith))
        ]
      ]
