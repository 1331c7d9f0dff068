-- ===== src/Timer.antt =====
-- kernel/timer.c: the system tick, software timers and delays. Callbacks are code of the
-- application: `call func arg` is what running one does to the kernel. The clear of the pending
-- interrupt, `hw_timer_clear_interrupt`, is no state of the kernel and is left out.
pub mod Ages
pub mod Queue
pub mod Step
pub mod Position
pub mod Walk
pub mod Interrupt
pub mod Sleep
use fos.Prelude.{
  ℕ, zero, suc, ◌+◌, ◌-◌, ◌%◌, ◌^◌, Option, none, some, ◌==◌, ◌||◌, if◌then◌else◌, update,
}
use fos.LinkedList.{Addr, null, list_init, list_delete, list_insert_behind, is_list_last}
use fos.Kernel.{Kernel, Port, Tick, ◌>>=◌, interrupt_disable, interrupt_enable, tick_queue, delay}
use fos.Sched.{prio_ready_queue_delete, prio_ready_queue_insert_tail, schedule}

abbrev pub software_timer : ℕ
software_timer = 0

abbrev pub cycle : ℕ
cycle = 1

abbrev pub delay_style : ℕ
delay_style = 2

abbrev pub set_tick : Kernel → Addr → Tick → Kernel
set_tick k t x = record k { tick = update k.tick t x }

unfoldable pub tick_queue_init : Kernel → Kernel
tick_queue_init k = record k { links = list_init k.links tick_queue }

unfoldable pub tick_queue_insert : ℕ → Addr → Kernel → Option Kernel
tick_queue_insert fuel tick k = do
  l ← list_insert_behind fuel k.links tick_queue tick
  some (record k { links = l })

unfoldable pub tick_queue_delete : Addr → Kernel → Kernel
tick_queue_delete tick k = record k { links = list_delete k.links tick }

abbrev pub tick_get : Kernel → ℕ
tick_get k = k.fos_tick

module _ (call : ℕ → ℕ → Kernel → Option Kernel) (fuel : ℕ) where
  -- `case SOFTWARE_TIMER`
  unfoldable pub timer_expire : Addr → Kernel → Option Kernel
  unfolding tick_queue_delete
  timer_expire t k = do
    k ← call (k.tick t).func (k.tick t).func_arg k
    some (
        if (k.tick t).period == cycle
        then set_tick k t (record (k.tick t) { timeout = (k.tick t).timeout_copy })
        else tick_queue_delete t k)

  -- The body of the loop of `hardware_timer`.
  unfoldable pub tick_step : Addr → Kernel → Option Kernel
  unfolding timer_expire tick_queue_delete
  tick_step t k =
      if (k.tick t).timeout == 0
      then (if (k.tick t).style == software_timer
          then timer_expire t k
          else if (k.tick t).style == delay_style
          then prio_ready_queue_insert_tail fuel (k.tick t).tcb (tick_queue_delete t k)
          else some k)
      else some (set_tick k t (record (k.tick t) { timeout = (k.tick t).timeout - 1 }))

  -- `while (!is_list_last(tmp)) { tick_tmp = tmp->next; tmp = tmp->next; ... }`, over its rounds.
  unfoldable pub tick_walk : ℕ → Addr → Kernel → Option Kernel
  unfolding tick_step
  tick_walk zero tmp k = none
  tick_walk (suc rounds) tmp k =
      let t = k.links.next tmp in
      let rest = (tick_step t k >>= λ k. tick_walk rounds t k) in
      if is_list_last k.links tmp then some k else rest

  unfoldable pub hardware_timer : Port → Kernel → Option Kernel
  unfolding tick_walk
  hardware_timer port k = do
    let (cpu, k) = interrupt_disable port k
    let k = record k { fos_tick = (k.fos_tick + 1) % 2 ^ 64 }
    k ← tick_walk fuel tick_queue k
    schedule port fuel (interrupt_enable port cpu k)

module _ (port : Port) (fuel : ℕ) where
  unfoldable pub timer_req : Addr → ℕ → ℕ → ℕ → ℕ → Kernel → Option Kernel
  unfolding tick_queue_insert
  timer_req timer func timeout period arg k =
      if func == null || (timer == null || timeout == 0) then some k else do
        let (cpu, k) = interrupt_disable port k
        let k = set_tick k timer (record (k.tick timer) {
          func = func;
          timeout = timeout;
          period = period % 256;
          timeout_copy = timeout;
          style = software_timer;
          func_arg = arg;
        })
        k ← tick_queue_insert fuel timer k
        some (interrupt_enable port cpu k)

  unfoldable pub os_delay : ℕ → Kernel → Option Kernel
  unfolding tick_queue_insert
  os_delay timeslice k = do
    let (cpu, k) = interrupt_disable port k
    let timer_delay = delay k.new_task
    let k = set_tick k timer_delay (record (k.tick timer_delay) {
      tcb = k.new_task;
      timeout = timeslice;
      timeout_copy = timeslice;
      style = delay_style;
    })
    k ← prio_ready_queue_delete k.new_task k
    k ← tick_queue_insert fuel timer_delay k
    schedule port fuel (interrupt_enable port cpu k)
