-- ===== src/Cpu/Or1ksim/Uart/Short.antt =====
-- `uart_print_short` of cpu/or1ksim/uart.c.
use fos.Prelude.{
  ℕ, zero, suc, ◌+◌, ◌*◌, ◌/◌, ◌%◌, ◌^◌, ◌<◌, ◌≤◌, ◌≡◌, ◌⊎◌, refl, ◌∙◌, sym, ap, some, List, [],
  ◌∷◌, ◌++◌, arith, ◌==◌, ◌||◌, not, if◌then◌else◌, length, Bool, Bool-cases, inl, inr, true, false,
}
use mathlib.Core.List.{append_assoc, append-nil}
use fos.Libc.{Memory}
use fos.Libc.Strings.{HoldsString}
use fos.Cpu.Or1ksim.Uart.{Access, Device, hex_digit, short_digits, uart_print_short}
use fos.Cpu.Or1ksim.Uart.Sends.{sent, wire, Prompt, uart_putc-wire, uart_print_str-wires}
use fos.Cpu.Or1ksim.Uart.Hex.{
  digit_value, hex_value, digit_value-hex_digit, hex_digit_plain, shorter,
}

-- The characters that the loop sends, by whether one was sent before.
abbrev short_text : ℕ → ℕ → Bool → List ℕ
short_text ul zero flag = []
short_text ul (suc n) flag =
    let c = hex_digit (ul / 2 ^ (n * 4) % 16) in
    if flag || (not (c == 48) || n == 0) then c ∷ short_text ul n true else short_text ul n false

-- A zero stands in front only where it stands alone.
abbrev pub is_short : List ℕ → Bool
is_short [] = false
is_short (c ∷ []) = true
is_short (c ∷ d ∷ cs) = not (c == 48)

hex_digit_zero : (d : ℕ) → (hex_digit d == 48) ≡ true → d ≡ 0
unfolding hex_digit
hex_digit_zero d e = ground arith

short_text-is_short : (ul n : ℕ) → is_short (short_text ul (suc n) false) ≡ true
short_text-is_short ul zero = ground arith
short_text-is_short ul (suc n) =
    let c = hex_digit (ul / 2 ^ (suc n * 4) % 16) in
    elim (Bool-cases (c == 48)) [
      | inl e ↦ ground (arith, e, short_text-is_short ul n)
      | inr ne ↦ ground (arith, ne)
    ]

length-short_text : (ul n : ℕ) (flag : Bool) → length (short_text ul n flag) ≤ n
length-short_text ul zero flag = omega arith
length-short_text ul (suc n) flag =
    ground (arith, length-short_text ul n true, length-short_text ul n false)

hex_value-short_text :
    (ul n : ℕ) (flag : Bool)
    → (flag ≡ true) ⊎ (ul / 2 ^ (n * 4) ≡ 0)
    → hex_value (ul / 2 ^ (n * 4)) (short_text ul n flag) ≡ ul
hex_value-short_text ul zero flag h = omega arith
hex_value-short_text ul (suc n) flag h =
    let q = ul / 2 ^ (n * 4) in
    let c = hex_digit (q % 16) in
    elim (Bool-cases (flag || (not (c == 48) || n == 0))) [
      | inl shown ↦
          let next : ul / 2 ^ (suc n * 4) * 16 + digit_value (hex_digit (q % 16)) ≡ q =
            omega (arith, shorter ul n, digit_value-hex_digit (q % 16) (omega arith)) in
          rw shown (
            ap (λ v. hex_value v (short_text ul n true)) next
            ∙ hex_value-short_text ul n true (inl refl))
      | inr skipped ↦
          let here : q % 16 ≡ 0 = hex_digit_zero (q % 16) (ground (arith, skipped)) in
          let none_yet : ul / 2 ^ (suc n * 4) ≡ 0 = ground (arith, h, skipped) in
          let still : q ≡ 0 = omega (arith, here, none_yet, shorter ul n) in
          rw skipped (
            ap (λ v. hex_value v (short_text ul n false)) (none_yet ∙ sym still)
            ∙ hex_value-short_text ul n false (inr still))
    ]

short_digits-short_text :
    (device : Device) (fuel ul n : ℕ) (flag : Bool) (log : List Access)
    → Prompt device fuel
    → (log' : List Access) × (short_digits device fuel ul n flag log ≡ some log')
      × (sent log' ≡ sent log ++ short_text ul n flag)
unfolding short_digits
short_digits-short_text device fuel ul zero flag log prompt =
    (log, refl, sym (append-nil (sent log)))
short_digits-short_text device fuel ul (suc n) flag log prompt =
    let c = hex_digit (ul / 2 ^ (n * 4) % 16) in
    elim (Bool-cases (flag || (not (c == 48) || n == 0))) [
      | inl shown ↦
          let (l1, e1, s1) = uart_putc-wire device fuel prompt c log in
          let (l2, e2, s2) = short_digits-short_text device fuel ul n true l1 prompt in
          let plain : wire c ≡ c ∷ [] = rw (hex_digit_plain (ul / 2 ^ (n * 4) % 16)) refl in
          rw shown (
            l2,
            ground (arith, e1, e2),
            s2
                ∙ ap (λ xs. xs ++ short_text ul n true) (s1 ∙ ap (λ ws. sent log ++ ws) plain)
                ∙ append_assoc (sent log) (c ∷ []) (short_text ul n true),
          )
      | inr skipped ↦ rw skipped (short_digits-short_text device fuel ul n false log prompt)
    ]

-- On a transmitter that empties, `uart_print_short` returns and has sent "0x" and at most eight characters
-- more, which read in hexadecimal are the number, with no zero in front of others.
pub uart_print_short-hex_value :
    (device : Device) (fuel : ℕ) (mem : Memory) (prefix ul : ℕ) (log : List Access)
    → Prompt device fuel
    → HoldsString mem prefix (48 ∷ 120 ∷ [])
    → ul < 2 ^ 32
    → (log' : List Access) × (text : List ℕ) × (uart_print_short device fuel mem prefix ul log
        ≡ some log')
      × (sent log' ≡ sent log ++ 48 ∷ 120 ∷ text)
      × (length text ≤ 8)
      × (is_short text ≡ true)
      × (hex_value 0 text ≡ ul)
unfolding uart_print_short
uart_print_short-hex_value device fuel mem prefix ul log prompt h lt =
    let (l1, e1, s1) =
      uart_print_str-wires device fuel prompt mem 3 prefix (48 ∷ 120 ∷ []) log h (omega arith) in
    let (l2, e2, s2) = short_digits-short_text device fuel ul 8 false l1 prompt in
    let high : ul / 2 ^ (8 * 4) ≡ 0 = omega (arith, lt) in
    (
      l2,
      short_text ul 8 false,
      ground (arith, e1, e2),
      s2
          ∙ ap (λ xs. xs ++ short_text ul 8 false) s1
          ∙ append_assoc (sent log) (48 ∷ 120 ∷ []) (short_text ul 8 false),
      length-short_text ul 8 false,
      short_text-is_short ul 7,
      ap (λ v. hex_value v (short_text ul 8 false)) (sym high)
          ∙ hex_value-short_text ul 8 false (inr high),
    )
