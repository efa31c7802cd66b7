-- ===== src/Kernel/Console.antt =====
-- kernel/console.c: the input side of the console, without the echo and without `procdump`.
pub mod Window
pub mod Lines
pub mod Reads
mod Tests
use os_network_concurrency_s.Common.{
  ℕ, zero, suc, ◌+◌, ◌-◌, ◌%◌, ltb, ◌==◌, if◌then◌else◌, update, not, ◌&&◌, ◌||◌, Bool, true, false,
  add_uint, sub_uint,
}

abbrev pub input_buf_size : ℕ
input_buf_size = 128

-- `cons`: what lies from `r` to `w` can be read, and what lies from `w` to `e` can still be edited.
pub record Cons : Type 0 where
  pub buf : ℕ → ℕ
  pub r : ℕ
  pub w : ℕ
  pub e : ℕ

-- `C('P')` and so on
abbrev pub control : ℕ → ℕ
control x = x - b'@'

-- The loop that kills a line, with the rounds left.
unfoldable pub kill_from : ℕ → Cons → Cons
kill_from zero s = s
kill_from (suc n) s =
    let shorter = record s { e = sub_uint s.e 1 } in
    let rest = kill_from n shorter in
    if not (s.e == s.w) && not (s.buf (sub_uint s.e 1 % input_buf_size) == b'\n') then rest else s

-- There are at most as many rounds as there are bytes from `w` to `e`.
unfoldable pub kill_line : Cons → Cons
kill_line s = kill_from (sub_uint s.e s.w) s

unfoldable pub backspace : Cons → Cons
backspace s = if s.e == s.w then s else record s { e = sub_uint s.e 1 }

-- The stored byte; then a whole line, an end of file or a full buffer is handed to the readers.
unfoldable pub store_input : ℕ → Cons → Cons
store_input c s =
    let stored = record s { buf = update s.buf (s.e % input_buf_size) c; e = add_uint s.e 1 } in
    if (c == b'\n') || (c == control b'D') || (sub_uint stored.e s.r == input_buf_size)
    then record stored { w = stored.e }
    else stored

-- The default case of the switch.
unfoldable pub input : ℕ → Cons → Cons
input c s =
    if not (c == 0) && ltb (sub_uint s.e s.r) input_buf_size
    then store_input (if c == b'\r' then b'\n' else c) s
    else s

unfoldable pub consoleintr : ℕ → Cons → Cons
consoleintr c s =
    if c == control b'P'
    then s
    else if c == control b'U'
    then kill_line s
    else if (c == control b'H') || (c == 0x7f)
    then backspace s
    else input c s

-- How a stretch of `consoleread` ends: with -1, with the number of bytes, or asleep after some.
pub data ReadEnd : Type 0 where
  failed : ReadEnd
  returned : ℕ → ReadEnd
  sleeping : ℕ → ReadEnd

-- The loop of `consoleread` after `i` bytes up to its end or its next sleep, with `n` bytes still
-- wanted. `deliver i c` says whether byte `i` could be copied out.
unfoldable pub consoleread_from : ℕ → (ℕ → ℕ → Bool) → Bool → ℕ → Cons → ReadEnd × Cons
consoleread_from zero deliver killed i s = (returned i, s)
consoleread_from (suc n) deliver killed i s =
    let c = s.buf (s.r % input_buf_size) in
    let taken = record s { r = add_uint s.r 1 } in
    let rest = consoleread_from n deliver killed (i + 1) taken in
    if s.r == s.w
    then (if killed then (failed, s) else (sleeping i, s))
    else if c == control b'D'
    then (returned i, if ltb 0 i then s else taken)
    else if not (deliver i c)
    then (returned i, taken)
    else if c == b'\n'
    then (returned (i + 1), taken)
    else rest

unfoldable pub consoleread : ℕ → (ℕ → ℕ → Bool) → Bool → Cons → ReadEnd × Cons
consoleread n deliver killed s = consoleread_from n deliver killed 0 s
