-- ===== src/Examples/Sync.antt =====
-- The theorems on scheduling, semaphores, mutexes and message queues at the state of State.
use fos.Prelude.{◌≡◌, refl, [], ◌∷◌, arith, update, some}
use fos.LinkedList.{Links}
use fos.LinkedList.Shape.{Loose}
use fos.PrioMap.{PrioMap}
use fos.Kernel.{Kernel, true_code, set_prio}
use fos.Sched.{schedule}
use fos.Sched.Models.{Models, rebase}
use fos.Sched.Fetch.{Highest}
use fos.Sched.Block.{blocked, woken}
use fos.Sched.Switch.{Switches, switch_to, schedule-Highest}
use fos.Semaphore.{set_sem, sem_get, sem_put}
use fos.Semaphore.Blocking.{sem_get-blocks, sem_put-wakes}
use fos.Mutex.{set_mutex, mutex_get, mutex_put, prio_mutex}
use fos.Mutex.Ceiling.{moved, Keeps, mutex_get-takes}
use fos.Mutex.Waiters.{mutex_get-blocks, mutex_put-wakes}
use fos.MessageQueue.{set_queue, msg_put, msg_get, fifo, full}
use fos.MessageQueue.Put.{msg_put-stores, msg_put-wakes, msg_put-full}
use fos.MessageQueue.Get.{msg_get-first}
use fos.Examples.State.{head, port, boot, lists, boot-Models, boot-Highest}

schedule-Highest_example :
    (l : Links) × (m : PrioMap) × (schedule port 9 boot
      ≡ some (switch_to 200 (record boot { links = l; map = m })))
    × Models head (switch_to 200 (record boot { links = l; map = m })) (update lists 4 (200 ∷ []))
schedule-Highest_example = schedule-Highest port 9 boot-Models boot-Highest (omega arith) refl

sem_blocked-Highest : Highest (blocked lists 3 200 100) 5 202 []
sem_blocked-Highest = record {
  in_range = omega arith;
  first = refl;
  none_above = λ q h. ground arith;
}

sem_get-blocks_example :
    Switches head
      (sem_get port 9 100 boot)
      true_code
      202
      (set_sem boot 100 (record (boot.sem 100) { tcb = 200 }))
      (update (blocked lists 3 200 100) 6 (202 ∷ []))
sem_get-blocks_example =
    sem_get-blocks port 9 boot-Models 100 refl (omega arith) refl {p = 3} refl (omega arith) refl
      (omega arith) sem_blocked-Highest (omega arith)

sem_woken-Highest : Highest (woken lists 3 206 100 []) 3 206 (200 ∷ [])
sem_woken-Highest = record {
  in_range = omega arith;
  first = refl;
  none_above = λ q h. ground arith;
}

sem_put-wakes_example :
    Switches head
      (sem_put port 9 100 boot)
      true_code
      206
      boot
      (update (woken lists 3 206 100 []) 4 (200 ∷ 206 ∷ []))
sem_put-wakes_example =
    sem_put-wakes port 9 boot-Models 100 refl (omega arith) refl refl sem_woken-Highest
      (omega arith)

mutex_get-takes_example :
    (k' : Kernel) × (mutex_get port 9 112 boot ≡ some (true_code, k'))
    × (k'.mutex 112 ≡ record (boot.mutex 112) { copy_prio = 3; enable = 0 })
    × ((k'.tcb 200).prio ≡ prio_mutex)
    × Keeps boot k' 112 200
    × Models head k' (moved lists 3 prio_mutex 200)
mutex_get-takes_example =
    mutex_get-takes port 9 boot-Models 112 3 (omega arith) (omega arith) (omega arith) refl

mutex_blocked-Highest : Highest (blocked lists 3 200 110) 5 202 []
mutex_blocked-Highest = record {
  in_range = omega arith;
  first = refl;
  none_above = λ q h. ground arith;
}

mutex_get-blocks_example :
    Switches head
      (mutex_get port 9 110 boot)
      true_code
      202
      (set_mutex boot 110 (record (boot.mutex 110) { tcb = 200 }))
      (update (blocked lists 3 200 110) 6 (202 ∷ []))
mutex_get-blocks_example =
    mutex_get-blocks port 9 boot-Models 110 refl (omega arith) refl {p = 3} refl (omega arith) refl
      (omega arith) mutex_blocked-Highest (omega arith)

mutex_woken-Highest : Highest (woken (moved lists 3 3 200) 3 208 110 []) 3 208 (200 ∷ [])
mutex_woken-Highest = record {
  in_range = omega arith;
  first = refl;
  none_above = λ q h. ground arith;
}

mutex_put-wakes_example :
    Switches head
      (mutex_put port 9 110 boot)
      true_code
      208
      (set_mutex (set_prio boot 200 3) 110 (record (boot.mutex 110) { enable = 1 }))
      (update (woken (moved lists 3 3 200) 3 208 110 []) 4 (200 ∷ 208 ∷ []))
mutex_put-wakes_example =
    mutex_put-wakes port 9 boot-Models 110 refl (omega arith) refl {p = 3} {r = 3} (omega arith)
      refl refl (omega arith) refl mutex_woken-Highest (omega arith)

-- A message that is in no queue.
message-Loose : Loose head lists 302
message-Loose = record { free = λ h hh. ground arith; no_head = refl }

msg_put-stores_example :
    (l : Links) × (msg_put port 9 122 302 fifo boot
      ≡ some (
        true_code,
        record (set_queue boot 122 (record (boot.queue 122) { count = 1 })) { links = l },
      ))
    × Models head (record boot { links = l }) (update lists 123 (302 ∷ []))
msg_put-stores_example =
    msg_put-stores port 9 boot-Models 122 refl refl (omega arith) 302 fifo refl message-Loose
      (omega arith) (record { counted = refl; room = omega arith }) (omega arith)

msg_put-wakes_example :
    (l : Links) × (m : PrioMap) × (msg_put port 9 120 302 fifo boot
      ≡ some (
        true_code,
        record (set_queue boot 120 (record (boot.queue 120) { count = 2 })) { links = l; map = m },
      ))
    × Models head
        (record boot { links = l; map = m })
        (update (woken lists 3 210 120 []) 121 (300 ∷ 302 ∷ []))
msg_put-wakes_example =
    msg_put-wakes port 9 boot-Models 120 refl refl (omega arith) 302 fifo refl message-Loose
      (omega arith) (record { counted = refl; room = omega arith }) (omega arith)

msg_get-first_example :
    (l : Links) × (msg_get port 9 120 500 boot
      ≡ some (
        true_code,
        some 1300,
        record (set_queue boot 120 (record (boot.queue 120) { count = 0 })) { links = l },
      ))
    × Models head (record boot { links = l }) (update lists 121 [])
msg_get-first_example =
    msg_get-first port 9 boot-Models 120 refl refl (omega arith) 500 (omega arith) refl
      (omega arith)

queue_blocked-Highest : Highest (blocked lists 3 200 122) 5 202 []
queue_blocked-Highest = record {
  in_range = omega arith;
  first = refl;
  none_above = λ q h. ground arith;
}

-- Queue 120 with a length of one is full.
abbrev full_queue : Kernel
full_queue = set_queue boot 120 (record { length = 1; count = 1; name = 0 })

msg_put-full_example :
    (l : Links) × (m : PrioMap) × (msg_put port 9 120 302 fifo full_queue
      ≡ some (full, record full_queue { links = l; map = m }))
    × Models head (record full_queue { links = l; map = m }) (woken lists 3 210 120 [])
msg_put-full_example =
    msg_put-full port 9 (rebase full_queue boot-Models refl refl refl) 120 refl refl (omega arith)
      302 fifo (omega arith) refl
