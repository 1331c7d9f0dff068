-- ===== src/Cpu/Or1ksim.antt =====
-- cpu/or1ksim/interrupt.c. The special purpose registers that it reads and writes are fields: the
-- supervision register `sr`, the mask `picmr` and the status `picsr` of the interrupt controller,
-- each a 32-bit word; reading and writing one is the assembly of `mfspr` and `mtspr`. A handler is
-- code of a driver: `call func arg` is what running one does to the processor.
pub mod Dispatch
pub mod Ticks
pub mod Uart
use Prim.Native.Nat.{bit_and, bit_or}
use fos.Prelude.{ℕ, zero, suc, ◌+◌, ◌-◌, ◌^◌, ◌==◌, ◌&&◌, not, refl, ltb, if◌then◌else◌, update}
use fos.LinkedList.{null}
use fos.Kernel.{Port}

-- SPR_SR_IEE | SPR_SR_TEE
abbrev pub spr_sr_iee : ℕ
spr_sr_iee = 4

abbrev pub spr_sr_tee : ℕ
spr_sr_tee = 2

abbrev pub max_int_handlers : ℕ
max_int_handlers = 32

-- `-1` as a 32-bit word.
abbrev pub minus_one : ℕ
minus_one = 2 ^ 32 - 1

pub record Ihnd : Type 0 where
  pub handler : ℕ
  pub arg : ℕ

pub record Cpu : Type 0 where
  pub sr : ℕ
  pub picmr : ℕ
  pub picsr : ℕ
  pub int_handlers : ℕ → Ihnd

unfoldable pub interrupt_disable : ℕ → ℕ × ℕ
interrupt_disable sr = (sr, bit_and sr (2 ^ 32 - 1 - (spr_sr_iee + spr_sr_tee)))

unfoldable pub interrupt_enable : ℕ → ℕ → ℕ
interrupt_enable cpu_sr sr = cpu_sr

pub port : Port
unfolding interrupt_enable interrupt_disable
port = record {
  interrupt_disable = interrupt_disable;
  interrupt_enable = interrupt_enable;
  restores = λ s. refl;
}

-- The loop of `hw_interrupt_init`, over the rounds left.
unfoldable pub clear_handlers : ℕ → ℕ → Cpu → Cpu
clear_handlers zero i c = c
clear_handlers (suc n) i c =
    clear_handlers n (i + 1)
      (record c { int_handlers = update c.int_handlers i (record { handler = null; arg = null }) })

unfoldable pub hw_interrupt_init : Cpu → ℕ × Cpu
unfolding clear_handlers
hw_interrupt_init c =
    let c = clear_handlers max_int_handlers 0 c in
    let c = record c { picmr = 0 } in (0, record c { sr = bit_or c.sr spr_sr_iee })

unfoldable pub hw_interrupt_install : (vect handler arg : ℕ) → Cpu → ℕ × Cpu
hw_interrupt_install vect handler arg c =
    if ltb vect max_int_handlers
    then (
      0,
      record c {
        int_handlers = update c.int_handlers vect (record { handler = handler; arg = arg });
        picmr = bit_or c.picmr (2 ^ vect);
      },
    )
    else (minus_one, c)

unfoldable pub hw_interrupt_mask : ℕ → Cpu → ℕ × Cpu
hw_interrupt_mask vect c =
    if ltb vect max_int_handlers
    then (0, record c { picmr = bit_and c.picmr (2 ^ 32 - 1 - 2 ^ vect) })
    else (minus_one, c)

unfoldable pub hw_interrupt_unmask : ℕ → Cpu → ℕ × Cpu
hw_interrupt_unmask vect c =
    if ltb vect max_int_handlers
    then (0, record c { picmr = bit_or c.picmr (2 ^ vect) })
    else (minus_one, c)

module _ (call : ℕ → ℕ → Cpu → Cpu) where
  -- The body of the loop of `usr_handle`.
  unfoldable pub handle_one : ℕ → ℕ → Cpu → Cpu
  handle_one picsr i c =
      if not (bit_and picsr (2 ^ i) == 0) && not ((c.int_handlers i).handler == null)
      then call (c.int_handlers i).handler (c.int_handlers i).arg c
      else c

  -- The loop of `usr_handle`, over the rounds left.
  unfoldable pub handle_from : ℕ → ℕ → ℕ → Cpu → Cpu
  unfolding handle_one
  handle_from picsr zero i c = c
  handle_from picsr (suc n) i c = handle_from picsr n (i + 1) (handle_one picsr i c)

  unfoldable pub usr_handle : Cpu → Cpu
  usr_handle c = record (handle_from c.picsr max_int_handlers 0 c) { picsr = 0 }
