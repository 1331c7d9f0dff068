-- ===== src/Cpu/Or1ksim/Uart/Hex.antt =====
-- The digits of `uart_print_long` of cpu/or1ksim/uart.c, and what they read as.
use fos.Prelude.{
  ℕ, zero, suc, ◌+◌, ◌-◌, ◌*◌, ◌/◌, ◌%◌, ◌^◌, ◌<◌, ◌≡◌, refl, ◌∙◌, sym, ap, some, List, [], ◌∷◌,
  ◌++◌, arith, ltb, ◌==◌, if◌then◌else◌, length, false,
}
use native.Mathlib.Nat.{div-div-eq-div-mul}
use mathlib.Core.List.{append_assoc, append-nil}
use fos.Libc.{Memory}
use fos.Libc.Strings.{HoldsString}
use fos.Cpu.Or1ksim.Uart.{Access, Device, hex_digit, print_digits, uart_print_long}
use fos.Cpu.Or1ksim.Uart.Sends.{sent, wire, Prompt, uart_putc-wire, uart_print_str-wires}

-- The value of hexadecimal characters behind `v`.
abbrev pub digit_value : ℕ → ℕ
digit_value c = if ltb c 97 then c - 48 else c - 87

abbrev pub hex_value : ℕ → List ℕ → ℕ
hex_value v [] = v
hex_value v (c ∷ cs) = hex_value (v * 16 + digit_value c) cs

pub digit_value-hex_digit : (d : ℕ) → d < 16 → digit_value (hex_digit d) ≡ d
unfolding hex_digit
digit_value-hex_digit d lt = ground arith

pub hex_digit_plain : (d : ℕ) → (hex_digit d == 10) ≡ false
unfolding hex_digit
hex_digit_plain d = ground arith

-- The characters that the loop sends.
abbrev hex_text : ℕ → ℕ → List ℕ
hex_text ul zero = []
hex_text ul (suc n) = hex_digit (ul / 2 ^ (n * 4) % 16) ∷ hex_text ul n

length-hex_text : (ul n : ℕ) → length (hex_text ul n) ≡ n
length-hex_text ul zero = refl
length-hex_text ul (suc n) = omega (arith, length-hex_text ul n)

sixteen_more : (n : ℕ) → 2 ^ (suc n * 4) ≡ 2 ^ (n * 4) * 16
sixteen_more n =
    ap (λ e. 2 ^ e) {x = suc n * 4} {y = suc (suc (suc (suc (n * 4))))} (omega arith) ∙ omega arith

pub shorter : (ul n : ℕ) → ul / 2 ^ (suc n * 4) ≡ ul / 2 ^ (n * 4) / 16
shorter ul n = ap (λ m. ul / m) (sixteen_more n) ∙ sym (div-div-eq-div-mul ul (2 ^ (n * 4)) 16)

-- Each character brings the number nearer.
hex_value-hex_text : (ul n : ℕ) → hex_value (ul / 2 ^ (n * 4)) (hex_text ul n) ≡ ul
hex_value-hex_text ul zero = omega arith
hex_value-hex_text ul (suc n) =
    let q = ul / 2 ^ (n * 4) in
    let next : ul / 2 ^ (suc n * 4) * 16 + digit_value (hex_digit (q % 16)) ≡ q =
      omega (arith, shorter ul n, digit_value-hex_digit (q % 16) (omega arith)) in
    ap (λ v. hex_value v (hex_text ul n)) next ∙ hex_value-hex_text ul n

-- The loop returns, and has sent its characters.
print_digits-hex_text :
    (device : Device) (fuel ul n : ℕ) (log : List Access)
    → Prompt device fuel
    → (log' : List Access) × (print_digits device fuel ul n log ≡ some log')
      × (sent log' ≡ sent log ++ hex_text ul n)
unfolding print_digits
print_digits-hex_text device fuel ul zero log prompt = (log, refl, sym (append-nil (sent log)))
print_digits-hex_text device fuel ul (suc n) log prompt =
    let c = hex_digit (ul / 2 ^ (n * 4) % 16) in
    let (l1, e1, s1) = uart_putc-wire device fuel prompt c log in
    let (l2, e2, s2) = print_digits-hex_text device fuel ul n l1 prompt in
    let plain : wire c ≡ c ∷ [] = rw (hex_digit_plain (ul / 2 ^ (n * 4) % 16)) refl in
    (
      l2,
      ground (arith, e1, e2),
      s2
          ∙ ap (λ xs. xs ++ hex_text ul n) (s1 ∙ ap (λ ws. sent log ++ ws) plain)
          ∙ append_assoc (sent log) (c ∷ []) (hex_text ul n),
    )

-- On a transmitter that empties, `uart_print_long` returns and has sent "0x" and eight characters more,
-- which read in hexadecimal are the number.
pub uart_print_long-hex_value :
    (device : Device) (fuel : ℕ) (mem : Memory) (prefix ul : ℕ) (log : List Access)
    → Prompt device fuel
    → HoldsString mem prefix (48 ∷ 120 ∷ [])
    → ul < 2 ^ 32
    → (log' : List Access) × (text : List ℕ) × (uart_print_long device fuel mem prefix ul log
        ≡ some log')
      × (sent log' ≡ sent log ++ 48 ∷ 120 ∷ text)
      × (length text ≡ 8)
      × (hex_value 0 text ≡ ul)
unfolding uart_print_long
uart_print_long-hex_value device fuel mem prefix ul log prompt h lt =
    let (l1, e1, s1) =
      uart_print_str-wires device fuel prompt mem 3 prefix (48 ∷ 120 ∷ []) log h (omega arith) in
    let (l2, e2, s2) = print_digits-hex_text device fuel ul 8 l1 prompt in
    let high : ul / 2 ^ (8 * 4) ≡ 0 = omega (arith, lt) in
    (
      l2,
      hex_text ul 8,
      ground (arith, e1, e2),
      s2
          ∙ ap (λ xs. xs ++ hex_text ul 8) s1
          ∙ append_assoc (sent log) (48 ∷ 120 ∷ []) (hex_text ul 8),
      length-hex_text ul 8,
      ap (λ v. hex_value v (hex_text ul 8)) (sym high) ∙ hex_value-hex_text ul 8,
    )
