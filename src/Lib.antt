-- ===== src/Lib.antt =====
-- FOS, a small real-time kernel in C, and what is proved of it.
--
-- The kernel keeps every task, timer, semaphore, mutex and queue in intrusive lists. A task is
-- either in the ready queue of its priority or in the list of what it waits for; a two-level bit map
-- tells which ready queues hold a task, and `schedule` gives the processor to the first task of the
-- lowest priority number. Semaphores, mutexes, message queues and delays take the running task off
-- its ready queue, put tasks back, and call `schedule`.
--
-- The files, and the code they model:
--   Prelude (Lists, Tests)  what all files share: tests on numbers, membership, lists, updates
--   LinkedList              kernel/list.c, kernel/include/list.h; the memory is `Links`, a node is an
--                           address. Chain relates a list in memory to its nodes; Shape relates the
--                           whole memory to a map from heads to sequences
--   PrioMap                 kernel/prio_sched.c, bitmap_set, bitmap_get, bitmap_clear; Bytes is about
--                           single bytes, Set about the set of priorities
--   Kernel                  kernel/include/var_define.h, kernel/include/queue.h, kernel/var_define.c:
--                           the structures and globals as one record, and the interface `Port` of a
--                           processor with the law that interrupt_enable restores what
--                           interrupt_disable returned
--   Sched                   the rest of kernel/prio_sched.c. Models is the invariant of the kernel,
--                           and its Queues the operations that keep it; Fetch is the choice of the
--                           task, Switch the whole of `schedule`, Block the moves between ready and
--                           waiting lists, Init the loop over the queues, Ready that there is a task
--                           to run, Tail what an insertion leaves of the links
--   Semaphore               kernel/semaphore.c
--   Mutex                   kernel/mutex.c; Ceiling is about taking it, Waiters about its list
--   MessageQueue            kernel/queue.c; Put and Get
--   Task                    kernel/task.c; Create, Prio and Stack
--   Timer                   kernel/timer.c; Sleep is about timer_req and os_delay, Interrupt about
--                           hardware_timer: Ages says what a tick does entry by entry, and Queue,
--                           Step, Position and Walk follow the walk along the queue
--   System                  the functions of the kernel called in any order: Calls (Mutexes, Messages,
--                           Ticks, Tasks) takes one call; Safety, Delivery, Balance and Delays are
--                           about whole runs; Facts is what holds between two calls, and Objects,
--                           Moves, Naps, Wakes and Ticking are its changes; Steady, Units and Streams
--                           are what one call does to sleeping tasks, to units and to messages,
--                           Delivery/Puts is about what msg_put returns
--   Network                 uip_thread of middleware/uip/fos/main.c and the tap device of tapdev.c;
--                           Protocol is what uIP asks of its main loop, Rounds is about one round,
--                           Lives about the task among the others
--   MemBlock                kernel/mem_block.c
--   Device                  kernel/device.c; Table is about registration and search
--   Fsm                     kernel/fsm.c; Table is about states and transitions,
--                           Automaton about fsm_while
--   Shell                   middleware/shell_parser/_list.c and shell.c; Commands is about the list of
--                           commands; Thread models example.c, and Lines is about its lines
--   Start                   app/system_start.c, system_init; Boot is the invariant that it establishes.
--                           Main models main, app/app_start.c and uip_thread_init of
--                           middleware/uip/fos/main.c; Placed is about the tasks in memory, First
--                           about the kernel that main leaves, Calls about the calls of the kernel
--                           in the loops of the five tasks
--   Cpu                     cpu/linux/port.c and cpu/or1ksim/interrupt.c: the interrupt primitives of
--                           the two ports, and in Or1ksim/Dispatch the handlers of or1ksim;
--                           Or1ksim/Ticks models hw_timer.c and stack_ready.c, and Or1ksim/Uart
--                           uart.c, with Sends about what goes out and Hex and Short about numbers;
--                           Riscv models support.c and uart.c of cpu/riscv/sifive_e, Frame is about
--                           the first frame of a task and Port about the serial port; Switch models
--                           the context switch of port.s, Enter is about the first one and Resume
--                           about one there and back
--   Libc                    libc/lib.c; Bytes and Strings
--   Printf                  libc/printf.c; Digits is about itoa
--   Examples                concrete states, and the results with a condition at them
--
-- A structure goes by the address of its LIST member, so `list_entry` is the identity. A function
-- that changes state takes the state and returns the new one; a function that may stop the kernel,
-- walk a list without an end or leave an array returns an Option, and `none` is that failure. The
-- sets of addresses that are heads and the sequences in the lists are parameters of the theorems.
--
-- Numbers are natural numbers, with the wrap-around of U8 and U32 written out where the code counts.
-- Walks along lists take fuel; the theorems ask for more fuel than the list has nodes, which is
-- enough for the walk to end. System takes the size of memory as fuel, which no list exceeds. The bit
-- map holds 64 priorities, the kernel uses 32.
--
-- A context switch is the change of `new_task`, `old_task` and `context`. What a function does after
-- its call of `schedule` would run when its task is switched back; in all functions that is giving
-- back the interrupt word, and the model does it at once.
--
-- Not modelled: the printing inside the modelled functions, which changes no state; the example
-- tasks that are not started; the rest of cpu: assembly but for the context switch of riscv,
-- contexts of the other ports, and cache.c, which is from another project; middleware/uip, a copy
-- of the uIP stack, but for its main loop. The stack, the host's strcmp and memset, the port's
-- stack_init, malloc, device drivers, timer callbacks and the registers of the serial port are
-- parameters.
pub mod Prelude
pub mod LinkedList
pub mod PrioMap
pub mod Kernel
pub mod Sched
pub mod Semaphore
pub mod Mutex
pub mod MessageQueue
pub mod Task
pub mod Timer
pub mod MemBlock
pub mod Device
pub mod Fsm
pub mod Shell
pub mod Libc
pub mod Start
pub mod Cpu
pub mod Printf
pub mod System
pub mod Network
mod Examples
