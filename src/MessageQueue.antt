-- ===== src/MessageQueue.antt =====
-- kernel/queue.c: message queues. The buffer that `msg_get` fills is the optional value among its
-- results: `some` is what the copy of five bytes writes, `none` an untouched buffer. Printing is
-- left out.
pub mod Put
pub mod Get
use fos.Prelude.{ℕ, ◌+◌, ◌-◌, Option, none, some, ◌||◌, ◌==◌, if◌then◌else◌, update, ltb}
use fos.LinkedList.{
  Addr, null, list_init, list_delete, list_insert_behind, list_insert_spec, is_list_last,
}
use fos.Kernel.{
  Kernel, Port, Queue, ◌>>=◌, true_code, false_code, interrupt_disable, interrupt_enable, msg_head,
}
use fos.Sched.{prio_ready_queue_delete, prio_ready_queue_insert_head, schedule}

abbrev pub fifo : ℕ
fifo = 1

abbrev pub lifo : ℕ
lifo = 0

abbrev pub full : ℕ
full = 10

abbrev pub empty : ℕ
empty = 11

abbrev pub set_queue : Kernel → Addr → Queue → Kernel
set_queue k q x = record k { queue = update k.queue q x }

unfoldable pub msg_block_queue_init : Addr → Kernel → Kernel
msg_block_queue_init q k = record k { links = list_init k.links q }

unfoldable pub msg_block_queue_insert : ℕ → Addr → Kernel → Option Kernel
msg_block_queue_insert fuel q k = do
  l ← list_insert_behind fuel k.links q k.new_task
  some (record k { links = l })

unfoldable pub msg_block_queue_delete : Addr → Kernel → Kernel
msg_block_queue_delete tcb k = record k { links = list_delete k.links tcb }

-- The part of `msg_put` that wakes the first blocked task.
unfoldable pub msg_wake : Addr → Kernel → Option Kernel
unfolding msg_block_queue_delete
msg_wake q k =
    if is_list_last k.links q
    then some k
    else let tcb_tmp = k.links.next q in
      prio_ready_queue_insert_head tcb_tmp (msg_block_queue_delete tcb_tmp k)

-- The part of `msg_put` that stores the message.
unfoldable pub msg_store : ℕ → Addr → Addr → ℕ → Kernel → Option (ℕ × Kernel)
msg_store fuel q msg method k =
    if (k.queue q).count == (k.queue q).length then some (full, k) else do
      let k = set_queue k q (record (k.queue q) { count = (k.queue q).count + 1 })
      l ←
          (if method == fifo
            then list_insert_behind fuel k.links (msg_head q) msg
            else some (list_insert_spec k.links (msg_head q) msg))
      some (true_code, record k { links = l })

-- The part of `msg_get` that takes the first message.
unfoldable pub msg_fetch : Addr → Kernel → Option ℕ × Kernel
msg_fetch q k =
    let msg = k.links.next (msg_head q) in
    let k' = record k { links = list_delete k.links msg } in
    (
      some (k.msg msg).buff,
      if ltb 0 (k.queue q).count
          then set_queue k' q (record (k.queue q) { count = (k.queue q).count - 1 })
          else k',
    )

module _ (port : Port) where
  unfoldable pub msg_queue_create : Addr → ℕ → ℕ → Kernel → ℕ × Kernel
  unfolding msg_block_queue_init
  msg_queue_create q length name k =
      if q == null || length == 0
      then (false_code, k)
      else let (cpu_sr, k) = interrupt_disable port k in
        let k = msg_block_queue_init q k in
        let k = record k { links = list_init k.links (msg_head q) } in
        let k = set_queue k q (record { length = length; count = 0; name = name }) in
        (true_code, interrupt_enable port cpu_sr k)

  module _ (fuel : ℕ) where
    unfoldable pub msg_put : Addr → Addr → ℕ → Kernel → Option (ℕ × Kernel)
    unfolding msg_wake msg_store
    msg_put q msg method k =
        if q == null || (msg == null || ltb (k.queue q).length (k.queue q).count)
        then some (false_code, k)
        else do
          let (cpu_sr, k) = interrupt_disable port k
          k ← msg_wake q k
          (retval, k) ← msg_store fuel q msg method k
          some (retval, interrupt_enable port cpu_sr k)

    unfoldable pub msg_get : Addr → Addr → Kernel → Option (ℕ × Option ℕ × Kernel)
    unfolding msg_block_queue_insert msg_fetch
    msg_get q buffer k = if q == null || buffer == null then some (false_code, none, k) else do
      let (cpu_sr, k) = interrupt_disable port k
      if is_list_last k.links (msg_head q)
          then (do
            k ← prio_ready_queue_delete k.new_task k
            k ← msg_block_queue_insert fuel q k
            k ← schedule port fuel (interrupt_enable port cpu_sr k)
            some (empty, none, k))
          else (let (got, k) = msg_fetch q k in
              some (true_code, got, interrupt_enable port cpu_sr k))
