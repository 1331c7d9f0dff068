-- ===== src/Cpu/Or1ksim/Uart.antt =====
-- cpu/or1ksim/uart.c: the serial port. What is known of it is the list of the accesses to its
-- registers, the last first; `device log r` is what a read of register `r` shows after them. The
-- waits poll the line status on fuel, and `none` is a wait without an end.
pub mod Sends
pub mod Hex
pub mod Short
use Prim.Native.Nat.{bit_and, bit_or}
use fos.Prelude.{
  ℕ, zero, suc, ◌+◌, ◌-◌, ◌*◌, ◌/◌, ◌%◌, ◌^◌, Bool, true, false, not, ◌||◌, Option, none, some,
  List, [], ◌∷◌, ltb, ◌==◌, if◌then◌else◌,
}
use fos.Kernel.{◌>>=◌}
use fos.Libc.{Memory}
use fos.Cpu.Or1ksim.Ticks.{sys_clk, but}

-- The registers. Reads and writes, and the divisor latch, share places.
abbrev pub uart_rx : ℕ
uart_rx = 0

abbrev pub uart_tx : ℕ
uart_tx = 0

abbrev pub uart_dll : ℕ
uart_dll = 0

abbrev pub uart_dlm : ℕ
uart_dlm = 1

abbrev pub uart_ier : ℕ
uart_ier = 1

abbrev pub uart_iir : ℕ
uart_iir = 2

abbrev pub uart_fcr : ℕ
uart_fcr = 2

abbrev pub uart_lcr : ℕ
uart_lcr = 3

abbrev pub uart_lsr : ℕ
uart_lsr = 5

abbrev pub uart_lsr_dr : ℕ
uart_lsr_dr = 0x01

abbrev pub uart_lsr_thre : ℕ
uart_lsr_thre = 0x20

-- UART_LSR_TEMT | UART_LSR_THRE
abbrev pub both_empty : ℕ
both_empty = 0x60

abbrev pub uart_ier_rdi : ℕ
uart_ier_rdi = 0x01

abbrev pub uart_ier_thri : ℕ
uart_ier_thri = 0x02

abbrev pub uart_iir_rdi : ℕ
uart_iir_rdi = 0x04

abbrev pub uart_lcr_dlab : ℕ
uart_lcr_dlab = 0x80

abbrev pub uart_baud_rate : ℕ
uart_baud_rate = 38400

pub data Access : Type 0 where
  read_reg : ℕ → Access
  write_reg : ℕ → ℕ → Access

abbrev pub Device : Type 0
Device = List Access → ℕ → ℕ

abbrev pub put_reg : ℕ → ℕ → List Access → List Access
put_reg r v log = write_reg r v ∷ log

-- `(float)SYS_CLK / (16 * UART_BAUD_RATE) + 0.5`, cut off: in whole numbers of halves.
abbrev pub divisor : ℕ
divisor = (sys_clk * 2 + 16 * uart_baud_rate) / (16 * uart_baud_rate * 2)

-- A hexadecimal digit as a character.
unfoldable pub hex_digit : ℕ → ℕ
hex_digit c = if ltb 9 c then c + 87 else c + 48

module _ (device : Device) where
  abbrev pub get_reg : ℕ → List Access → ℕ × List Access
  get_reg r log = (device log r, read_reg r ∷ log)

  -- `REG8(r) = f(REG8(r))`
  abbrev pub change_reg : ℕ → (ℕ → ℕ) → List Access → List Access
  change_reg r f log = let (v, log) = get_reg r log in put_reg r (f v) log

  unfoldable pub uart_init : List Access → List Access
  uart_init log =
      let log = put_reg uart_fcr (0x01 + 0x02 + 0x04 + 0x40) log in
      let log = put_reg uart_ier 0 log in
      let log = put_reg uart_lcr 0x03 log in
      let log = change_reg uart_lcr (λ v. bit_or v uart_lcr_dlab) log in
      let log = put_reg uart_dlm (divisor / 256 % 256) log in
      let log = put_reg uart_dll (divisor % 256) log in
      change_reg uart_lcr (λ v. but v uart_lcr_dlab) log

  -- WAIT_FOR_THRE, WAIT_FOR_XMITR and WAIT_FOR_CHAR, by the bits that they wait for.
  unfoldable pub wait_for : ℕ → ℕ → List Access → Option (List Access)
  wait_for bits zero log = none
  wait_for bits (suc fuel) log =
      let (lsr, log) = get_reg uart_lsr log in
      let rest = wait_for bits fuel log in if bit_and lsr bits == bits then some log else rest

  unfoldable pub uart_putc_noblock : ℕ → List Access → List Access
  uart_putc_noblock c log = put_reg uart_tx c log

  abbrev pub uart_check_for_char : List Access → ℕ × List Access
  uart_check_for_char log = let (lsr, log) = get_reg uart_lsr log in (bit_and lsr uart_lsr_dr, log)

  abbrev pub uart_rxint_enable : List Access → List Access
  uart_rxint_enable log = change_reg uart_ier (λ v. bit_or v uart_ier_rdi) log

  abbrev pub uart_rxint_disable : List Access → List Access
  uart_rxint_disable log = change_reg uart_ier (λ v. but v uart_ier_rdi) log

  abbrev pub uart_txint_enable : List Access → List Access
  uart_txint_enable log = change_reg uart_ier (λ v. bit_or v uart_ier_thri) log

  abbrev pub uart_txint_disable : List Access → List Access
  uart_txint_disable log = change_reg uart_ier (λ v. but v uart_ier_thri) log

  abbrev pub uart_get_iir : List Access → ℕ × List Access
  uart_get_iir log = get_reg uart_iir log

  abbrev pub uart_get_lsr : List Access → ℕ × List Access
  uart_get_lsr log = get_reg uart_lsr log

  module _ (fuel : ℕ) where
    unfoldable pub uart_putc : ℕ → List Access → Option (List Access)
    unfolding wait_for
    uart_putc c log = do
      log ← wait_for uart_lsr_thre fuel log
      let log = put_reg uart_tx c log
      log ←
          (if c == 10
            then (wait_for uart_lsr_thre fuel log >>= λ log. some (put_reg uart_tx 13 log))
            else some log)
      wait_for both_empty fuel log

    unfoldable pub uart_getc : List Access → Option (ℕ × List Access)
    unfolding wait_for
    uart_getc log = do log ← wait_for uart_lsr_dr fuel log; some (get_reg uart_rx log)

    -- The status register of the interrupt controller, and the accesses.
    unfoldable pub uart_isr : ℕ → List Access → Option (ℕ × List Access)
    unfolding uart_putc
    uart_isr picsr log = do
      let picsr = but picsr 4
      let (interrupt_id, log) = get_reg uart_iir log
      log ←
          (if bit_and interrupt_id uart_iir_rdi == 0
            then some log
            else (let (buf, log) = get_reg uart_rx log in uart_putc buf log))
      log ← uart_putc 97 log
      some (picsr, log)

    -- `while(*p != 0) { uart_putc(*p); p++; }`, over the rounds left.
    unfoldable pub uart_print_str : Memory → ℕ → ℕ → List Access → Option (List Access)
    unfolding uart_putc
    uart_print_str mem zero p log = none
    uart_print_str mem (suc rounds) p log =
        let rest = (uart_putc (mem p) log >>= λ log. uart_print_str mem rounds (p + 1) log) in
        if mem p == 0 then some log else rest

    -- The loop of `uart_print_long`, over the rounds left.
    unfoldable pub print_digits : ℕ → ℕ → List Access → Option (List Access)
    unfolding uart_putc hex_digit
    print_digits ul zero log = some log
    print_digits ul (suc n) log = do
      log ← uart_putc (hex_digit (ul / 2 ^ (n * 4) % 16)) log
      print_digits ul n log

    -- The string literal "0x" stands at `prefix`.
    unfoldable pub uart_print_long : Memory → ℕ → ℕ → List Access → Option (List Access)
    unfolding print_digits uart_print_str
    uart_print_long mem prefix ul log = do
      log ← uart_print_str mem 3 prefix log
      print_digits ul 8 log

    -- The loop of `uart_print_short`: `flag` tells that a digit was printed; 48 is '0'.
    unfoldable pub short_digits : ℕ → ℕ → Bool → List Access → Option (List Access)
    unfolding uart_putc hex_digit
    short_digits ul zero flag log = some log
    short_digits ul (suc n) flag log =
        let c = hex_digit (ul / 2 ^ (n * 4) % 16) in
        let flag = flag || (not (c == 48) || n == 0) in
        (if flag then uart_putc c log else some log) >>= λ log. short_digits ul n flag log

    unfoldable pub uart_print_short : Memory → ℕ → ℕ → List Access → Option (List Access)
    unfolding short_digits uart_print_str
    uart_print_short mem prefix ul log = do
      log ← uart_print_str mem 3 prefix log
      short_digits ul 8 false log
