-- ===== src/Timer/Step.antt =====
-- One entry under `hardware_timer` of kernel/timer.c: it stays, fires and leaves, or wakes its task.
use fos.Prelude.{
  ℕ, ◌-◌, ◌≡◌, refl, inl, inr, true, false, Option, some, arith, ◌==◌, if◌then◌else◌, update, ap,
  Bool-cases, ==_iff,
}
use fos.LinkedList.{Addr, list_delete}
use fos.Kernel.{Kernel, Tick, Msg}
use fos.Sched.{prio_ready_queue_insert_tail}
use fos.Timer.{tick_step, software_timer}
use fos.Timer.Ages.{fires, wakes, stays, aged, Effect}

-- The message memory after one entry.
unfoldable pub fired_one : Effect → Tick → (Addr → Msg) → Addr → Msg
fired_one effect τ msg = if fires τ then effect τ.func τ.func_arg msg else msg

-- The callbacks are taken to return, and to change nothing of the kernel but message memory.
module _ (call : ℕ → ℕ → Kernel → Option Kernel) (effect : Effect)
    (quiet : (f a : ℕ) (k : Kernel) → call f a k ≡ some (record k { msg = effect f a k.msg }))
    (fuel : ℕ) where
  -- One entry that stays.
  pub step_stays :
      (y : Addr) (k : Kernel)
      → stays (k.tick y) ≡ true
      → (tk : Addr → Tick) × (tick_step call fuel y k
          ≡ some (record k { tick = tk; msg = fired_one effect (k.tick y) k.msg }))
        × ((z : Addr) → tk z ≡ (if z == y then aged (k.tick y) else k.tick z))
  unfolding tick_step fired_one
  step_stays y k s = elim (Bool-cases ((k.tick y).timeout == 0)) [
    | inr more ↦ (
      update k.tick y (record (k.tick y) { timeout = (k.tick y).timeout - 1 }),
      ground (arith, more),
      λ z. ground (arith, more),
    )
    | inl over ↦ elim (Bool-cases ((k.tick y).style == software_timer)) [
      | inl soft ↦ (
        update k.tick y (record (k.tick y) { timeout = (k.tick y).timeout_copy }),
        ground (arith, over, soft, quiet (k.tick y).func (k.tick y).func_arg k),
        λ z. ground (arith, over, soft),
      )
      | inr other ↦ (
        k.tick,
        ground (arith, over, other),
        λ z. elim (Bool-cases (z == y)) [
          | inl e ↦ ground (arith, over, other, ap k.tick ((==_iff z y).0 e))
          | inr ne ↦ rw ne refl
        ],
      )
    ]
  ]

  pub step_fires :
      (y : Addr) (k : Kernel)
      → stays (k.tick y) ≡ false
      → wakes (k.tick y) ≡ false
      → tick_step call fuel y k
        ≡ some (record k { links = list_delete k.links y; msg = fired_one effect (k.tick y) k.msg })
  unfolding tick_step fired_one
  step_fires y k s w = ground (arith, quiet (k.tick y).func (k.tick y).func_arg k)

  pub step_wakes :
      (y : Addr) (k : Kernel)
      → wakes (k.tick y) ≡ true
      → tick_step call fuel y k
        ≡ prio_ready_queue_insert_tail fuel
            (k.tick y).tcb
            (record k { links = list_delete k.links y; msg = fired_one effect (k.tick y) k.msg })
  unfolding tick_step fired_one
  step_wakes y k w = ground arith
