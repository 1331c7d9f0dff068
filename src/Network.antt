-- ===== src/Network.antt =====
-- The network task: `uip_thread` of middleware/uip/fos/main.c, over the tap device of tapdev.c. The
-- functions of the uIP stack, of the host and of the web server are a parameter.
pub mod Protocol
pub mod Rounds
pub mod Lives
use fos.Prelude.{
  ℕ, zero, suc, ◌+◌, ◌-◌, ◌*◌, ◌%◌, ◌/◌, ◌^◌, Bool, true, false, ltb, ◌==◌, if◌then◌else◌, Option,
  none, some,
}
use fos.Kernel.{Kernel, Port, ◌>>=◌}
use fos.Timer.{os_delay}

-- The state of the stack and of the host, which holds `uip_buf` and the clock, and the global `uip_len`.
pub record Node (Net : Type 0) : Type 0 where
  pub net : Net
  pub uip_len : ℕ

-- The functions that the task calls. `select` and `read` are those of tapdev_read on the file of
-- the device, a failing `select` being not 0, `read` with `none` for an error; `write` sends the
-- first `uip_len` bytes of the buffer; `open_tap` tells whether tapdev_init finds and sets up the device.
pub record Uip (Net Timer : Type 0) : Type 0 where
  pub open_tap : Node Net → Node Net × Bool
  pub select : Node Net → Node Net × ℕ
  pub read : Node Net → Node Net × Option ℕ
  pub write : Node Net → Node Net × Option ℕ
  pub eth_type : Node Net → ℕ
  pub htons : ℕ → ℕ
  pub uip_init : Node Net → Node Net
  pub uip_sethostaddr : ℕ → ℕ → ℕ → ℕ → Node Net → Node Net
  pub uip_setdraddr : ℕ → ℕ → ℕ → ℕ → Node Net → Node Net
  pub uip_setnetmask : ℕ → ℕ → ℕ → ℕ → Node Net → Node Net
  pub httpd_init : Node Net → Node Net
  pub uip_arp_ipin : Node Net → Node Net
  pub uip_input : Node Net → Node Net
  pub uip_arp_out : Node Net → Node Net
  pub uip_arp_arpin : Node Net → Node Net
  pub uip_periodic : ℕ → Node Net → Node Net
  pub uip_arp_timer : Node Net → Node Net
  pub timer_set : ℕ → Node Net → Node Net × Timer
  pub timer_reset : Timer → Timer
  pub timer_expired : Timer → Node Net → Node Net × Bool

abbrev pub clock_second : ℕ
clock_second = 1000

abbrev pub uip_conns : ℕ
uip_conns = 40

abbrev pub uip_ethtype_ip : ℕ
uip_ethtype_ip = 0x0800

abbrev pub uip_ethtype_arp : ℕ
uip_ethtype_arp = 0x0806

-- A part of the program goes on, or `exit(1)` ends the program, here at a node.
pub data Outcome (Net A : Type 0) : Type 0 where
  exited : Node Net → Outcome Net A
  done : A → Outcome Net A

abbrev pub and_then : {Net A B : Type 0} → Outcome Net A → (A → Outcome Net B) → Outcome Net B
and_then (exited n) f = exited n
and_then (done a) f = f a

-- The node and the local variables of the task.
pub record Thread (Net Timer : Type 0) : Type 0 where
  pub node : Node Net
  pub periodic_timer : Timer
  pub arp_timer : Timer

module _ {Net Timer : Type 0} (u : Uip Net Timer) where
  -- What tapdev_read returns after `read`; -1 as an unsigned int.
  abbrev pub read_result : Node Net × Option ℕ → Node Net × ℕ
  read_result (n, some ret) = (n, ret)
  read_result (n, none) = (n, 2 ^ 32 - 1)

  abbrev pub tapdev_read : Node Net → Node Net × ℕ
  tapdev_read n = let (n, ret) = u.select n in if ret == 0 then (n, 0) else read_result (u.read n)

  -- tapdev_send after `write`; it ends the program where that fails.
  abbrev pub write_result : Node Net × Option ℕ → Outcome Net (Node Net)
  write_result (n, some ret) = done n
  write_result (n, none) = exited n

  abbrev pub tapdev_send : Node Net → Outcome Net (Node Net)
  tapdev_send n = write_result (u.write n)

  -- tapdev_init.
  abbrev pub tapdev_init : Node Net → Outcome Net (Node Net)
  tapdev_init n = let (n, ready) = u.open_tap n in if ready then done n else exited n

  -- What uip_input or uip_periodic left in the buffer is sent.
  abbrev pub send_out : Node Net → Outcome Net (Node Net)
  send_out n = if ltb 0 n.uip_len then tapdev_send (u.uip_arp_out n) else done n

  abbrev pub send_answer : Node Net → Outcome Net (Node Net)
  send_answer n = if ltb 0 n.uip_len then tapdev_send n else done n

  unfoldable pub serve_frame : Node Net → Outcome Net (Node Net)
  serve_frame n =
      if u.eth_type n == u.htons uip_ethtype_ip
      then send_out (u.uip_input (u.uip_arp_ipin n))
      else if u.eth_type n == u.htons uip_ethtype_arp
      then send_answer (u.uip_arp_arpin n)
      else done n

  -- The loop over the connections, `todo` of them from `i` on.
  unfoldable pub serve_conns : (todo i : ℕ) → Node Net → Outcome Net (Node Net)
  serve_conns zero i n = done n
  serve_conns (suc todo) i n = and_then (send_out (u.uip_periodic i n)) (serve_conns todo (i + 1))

  unfoldable pub serve_arp : Thread Net Timer → Thread Net Timer
  serve_arp t =
      let (n, expired) = u.timer_expired t.arp_timer t.node in
      if expired
      then record t { node = u.uip_arp_timer n; arp_timer = u.timer_reset t.arp_timer }
      else record t { node = n }

  unfoldable pub serve_timers : Thread Net Timer → Outcome Net (Thread Net Timer)
  serve_timers t =
      let (n, expired) = u.timer_expired t.periodic_timer t.node in
      if expired
      then and_then (serve_conns uip_conns 0 n) (λ n.
        done (serve_arp (record t { node = n; periodic_timer = u.timer_reset t.periodic_timer })))
      else done (record t { node = n })

  -- The body of the loop before its os_delay.
  unfoldable pub serve : Thread Net Timer → Outcome Net (Thread Net Timer)
  serve t =
      let (n, len) = tapdev_read t.node in
      let n = record n { uip_len = len % 2 ^ 16 } in
      if ltb 0 n.uip_len
      then and_then (serve_frame n) (λ n. done (record t { node = n }))
      else serve_timers (record t { node = n })

  -- The body of the loop.
  unfoldable pub uip_round :
      Port
      → (fuel : ℕ) → Thread Net Timer
      → Kernel
      → Option (Outcome Net (Thread Net Timer) × Kernel)
  uip_round port fuel t k = elim (serve t) [
    | exited n ↦ some (exited n, k)
    | done t ↦ os_delay port fuel 5 k >>= λ k. some (done t, k)
  ]

  -- What the task does before its loop.
  unfoldable pub uip_start : Node Net → Outcome Net (Thread Net Timer)
  uip_start n =
      let (n, periodic_timer) = u.timer_set (clock_second / 2) n in
      let (n, arp_timer) = u.timer_set (clock_second * 10) n in
      and_then (tapdev_init n) λ n. done record {
        node = u.httpd_init (
            u.uip_setnetmask 255 255 255 0
              (u.uip_setdraddr 192 168 0 1 (u.uip_sethostaddr 192 168 0 2 (u.uip_init n))));
        periodic_timer = periodic_timer;
        arp_timer = arp_timer;
      }
