-- ===== src/Examples/Prints.antt =====
-- Runs of libc/printf.c, and the theorems on it and on cpu/or1ksim/uart.c at concrete values.
use fos.Prelude.{ℕ, ◌≡◌, ◌≤◌, refl, true, arith, some, none, List, [], ◌∷◌, get_or, length}
use fos.Kernel.{◌>>=◌}
use fos.Libc.{Memory, skip_atoi}
use fos.Printf.{print, put_number, itoa}
use fos.Printf.Digits.{itoa-skip_atoi}
use fos.Cpu.Or1ksim.Uart.{Access, Device, uart_print_short, uart_putc}
use fos.Cpu.Or1ksim.Uart.Sends.{Prompt, sent}
use fos.Cpu.Or1ksim.Uart.Hex.{hex_value}
use fos.Cpu.Or1ksim.Uart.Short.{is_short, uart_print_short-hex_value}

-- The format "%d-%x%c" at 1, and zeros.
abbrev format : Memory
format a = get_or (0 ∷ 37 ∷ 100 ∷ 45 ∷ 37 ∷ 120 ∷ 37 ∷ 99 ∷ []) a 0

-- "210-ff!"
print_text :
    print 30 9 100 1 (210 ∷ 255 ∷ 33 ∷ []) format ≡ some (50 ∷ 49 ∷ 48 ∷ 45 ∷ 102 ∷ 102 ∷ 33 ∷ [])
unfolding print
print_text = refl

-- Minus one has 20 digits as an `unsigned long`, and a zero that `store` has no place for.
put_number_negative : put_number 30 100 0xffffffff 10 format ≡ none
unfolding put_number
put_number_negative = refl

itoa-skip_atoi_example :
    (p : ℕ) × (mem' : Memory) × (itoa 3 210 100 10 format ≡ some (p, mem'))
    × (mem' p ≡ 0)
    × (skip_atoi 4 100 mem' ≡ some (210, p))
itoa-skip_atoi_example = itoa-skip_atoi 3 210 100 format (omega arith) (omega arith) (omega arith)

-- A transmitter that is empty from its first or second read on.
abbrev device : Device
device log r = elim log [ [] ↦ 0 | a ∷ rest ↦ 0x60 ]

device-Prompt : Prompt device 2
device-Prompt [] = (1, omega arith, refl, refl)
device-Prompt (a ∷ log) = (0, omega arith, refl, refl)

-- The text "0x" at 1.
abbrev prefix : Memory
prefix a = get_or (0 ∷ 48 ∷ 120 ∷ []) a 0

uart_print_short-hex_value_example :
    (log' : List Access) × (text : List ℕ) × (uart_print_short device 2 prefix 1 0xbeef []
      ≡ some log')
    × (sent log' ≡ 48 ∷ 120 ∷ text)
    × (length text ≤ 8)
    × (is_short text ≡ true)
    × (hex_value 0 text ≡ 0xbeef)
uart_print_short-hex_value_example =
    uart_print_short-hex_value device 2 prefix 1 0xbeef [] device-Prompt
      (refl, omega arith, (refl, omega arith, refl)) (omega arith)

-- "0xbeef", and what is sent for a newline.
short_beef :
    (uart_print_short device 2 prefix 1 0xbeef [] >>= λ log. some (sent log))
    ≡ some (48 ∷ 120 ∷ 98 ∷ 101 ∷ 101 ∷ 102 ∷ [])
unfolding uart_print_short
short_beef = refl

putc_newline : (uart_putc device 2 10 [] >>= λ log. some (sent log)) ≡ some (10 ∷ 13 ∷ [])
unfolding uart_putc
putc_newline = refl
