-- ===== src/Examples/Strings.antt =====
-- The theorems on fos_strcmp of libc/lib.c, on the commands of the shell and on its lines.
use fos.Prelude.{update, ◌≡◌, refl, some, [], ◌∷◌, arith, ◌==◌, if◌then◌else◌}
use fos.Kernel.{◌>>=◌}
use fos.Task.{Words}
use fos.Shell.Thread.{shell_round}
use fos.Shell.Lines.{shell_round-line}
use fos.Libc.{Memory, fos_strcmp, less}
use fos.Libc.Strings.{HoldsString, compare_bytes, fos_strcmp-compare_bytes}
use fos.Shell.{Shell, parser, true_code}
use fos.Shell.Commands.{first_command, Commands, parser-first}

-- "42", a zero, "47", a zero, and then zeros.
abbrev memory : Memory
memory a =
    if a == 10
    then 52
    else if a == 11
    then 50
    else if a == 13
    then 52
    else if a == 14
    then 55
    else 0

fos_strcmp-compare_bytes_example : fos_strcmp 9 10 13 memory ≡ some less
unfolding compare_bytes
fos_strcmp-compare_bytes_example =
    fos_strcmp-compare_bytes 9 10 13 memory (52 ∷ 50 ∷ []) (52 ∷ 55 ∷ [])
      (refl, omega arith, (refl, omega arith, refl)) (refl, omega arith, (refl, omega arith, refl))
      (omega arith)

-- The commands 7 and 8, of the functions 70 and 80.
abbrev shell : Shell
shell = record {
  next = λ a. if a == 100 then 2 else if a == 2 then 1 else 0;
  symbol = λ a. record { func = if a == 1 then 70 else 80; name = if a == 1 then 7 else 8 };
  temp = 2;
  ran = [];
}

shell-Commands : Commands shell (2 ∷ 1 ∷ [])
shell-Commands = record {
  leads = (refl, omega arith, (refl, omega arith, refl));
  used = λ a i. ground arith;
  few = omega arith;
}

parser-first_example : parser ◌==◌ 9 7 shell ≡ some (true_code, record shell { ran = 70 ∷ [] })
unfolding first_command
parser-first_example = parser-first ◌==◌ 9 7 shell (2 ∷ 1 ∷ []) shell-Commands (omega arith)

-- The command "A", the byte 65, in an empty buffer, and another line behind it.
shell_round-line_example :
    (line : Words) × HoldsString line 0 (65 ∷ [])
    × (shell_round
          (λ line name. line 0 == name)
          (λ s byte n mem. update mem s byte)
          9
          (65 ∷ 10 ∷ 66 ∷ 10 ∷ [])
          (λ a. 0)
          shell
        ≡ (parser (λ cmd name. line 0 == name) 9 0 shell >>= λ q.
            some (66 ∷ 10 ∷ [], update line 0 0, q.1)))
shell_round-line_example =
    shell_round-line (λ line name. line 0 == name) (λ s byte n mem. update mem s byte) 9 65 []
      (66 ∷ 10 ∷ []) (λ a. 0) shell refl refl (omega arith)
