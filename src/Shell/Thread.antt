-- ===== src/Shell/Thread.antt =====
-- middleware/shell_parser/example.c: the shell's task. Input is the list of bytes that `getchar`
-- returns; `none` is input that ends inside a line, a write behind the 128 bytes of `buff_cmd`, or a
-- walk without an end. Printing is left out, `show_memory_use` with it; a round of the task ends in
-- `os_delay`, which Timer models. `strcmp` and `memset` of the host's C library are parameters.
use fos.Prelude.{
  ℕ, zero, suc, ◌+◌, Bool, Option, none, some, List, [], ◌∷◌, ltb, ◌==◌, if◌then◌else◌, update,
}
use fos.LinkedList.{Addr, null}
use fos.Kernel.{Kernel, ◌>>=◌}
use fos.Task.{Words, task_create}
use fos.Shell.{Shell, sym_head, is_list_empty, export_symbol, parser}

abbrev pub buff_size : ℕ
buff_size = 128

abbrev pub newline : ℕ
newline = 10

-- The `for` loop of `shell_thread` from index `i`: the index of the newline, and the buffer.
unfoldable pub read_line : List ℕ → ℕ → Words → Option (ℕ × Words × List ℕ)
read_line [] i buff = none
read_line (x ∷ input) i buff =
    let rest = read_line input (i + 1) (update buff i x) in
    if ltb i buff_size
    then (if x == newline then some (i, update buff i x, input) else rest)
    else none

-- A round of the `while` loop of `shell_thread`.
unfoldable pub shell_round :
    (strcmp : Words → ℕ → Bool) (memset : ℕ → ℕ → ℕ → Words → Words) (fuel : ℕ)
    → List ℕ
    → Words
    → Shell
    → Option (List ℕ × Words × Shell)
shell_round strcmp memset fuel input buff s = do
  (i, buff, input) ← read_line input 0 buff
  if buff 0 == newline then some (input, buff, s) else (do
    let buff = update buff i 0
    (found, s) ← parser (λ cmd name. strcmp buff name) fuel 0 s
    some (input, memset 0 0 buff_size buff, s))

-- The names that `help` prints, from `tmp` on.
unfoldable pub help_from : ℕ → Addr → Shell → Option (List ℕ)
help_from zero tmp s = none
help_from (suc rounds) tmp s =
    let sym_tmp = s.next tmp in
    let rest = (help_from rounds sym_tmp s >>= λ names. some ((s.symbol sym_tmp).name ∷ names)) in
    if is_list_empty tmp s then some [] else rest

unfoldable pub help : ℕ → Shell → Option (List ℕ)
unfolding help_from
help fuel s = help_from fuel sym_head s

abbrev pub stack_shell_size : ℕ
stack_shell_size = 4096

-- The addresses of the four functions, of their names, and of the task.
unfoldable pub shell_init :
    (memset : ℕ → ℕ → ℕ → Words → Words) (stack_init : ℕ → ℕ → ℕ → ℕ → ℕ) (fuel : ℕ)
    (help_fn version show show_memory_use : ℕ) (names : ℕ → ℕ)
    (tcb_shell shell_thread stack_shell : ℕ)
    → Shell
    → Kernel
    → Words
    → Option (Shell × Kernel × Words)
shell_init memset stack_init fuel help_fn version show show_memory_use names tcb_shell shell_thread
      stack_shell s k mem =
    do
      s ← export_symbol help_fn (names 0) s
      s ← export_symbol version (names 1) s
      s ← export_symbol show (names 2) s
      s ← export_symbol show_memory_use (names 3) s
      (r, k, mem) ←
          task_create memset stack_init fuel tcb_shell (names 4) shell_thread null stack_shell
            stack_shell_size 30 1 k mem
      some (s, k, mem)
