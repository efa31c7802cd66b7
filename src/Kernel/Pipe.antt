-- ===== src/Kernel/Pipe.antt =====
-- kernel/pipe.c: the pipe. One call of `pipewrite` or `piperead` holds pi->lock except while it
-- sleeps, so a round of its loop is one step; copyin and copyout are the parameters `fetch` and
-- `deliver`, by the byte's index, with `none` for -1.
pub mod Fifo
pub mod Calls
mod Tests
use os_network_concurrency_s.Common.{
  ℕ, zero, suc, ◌+◌, ◌-◌, ◌%◌, ◌^◌, Option, none, some, ltb, ◌==◌, if◌then◌else◌, update, Bool,
  true, false, ◌&&◌, ◌||◌, not, add_uint,
}

abbrev pub pipe_size : ℕ
pipe_size = 512

-- `struct pipe`; nread and nwrite are uint and wrap round.
pub record Pipe : Type 0 where
  pub bytes : ℕ → ℕ
  pub nread : ℕ
  pub nwrite : ℕ
  pub readopen : Bool
  pub writeopen : Bool

-- The part of `pipealloc` that fills in a new pipe.
abbrev pub fresh_pipe : (ℕ → ℕ) → Pipe
fresh_pipe page = record { bytes = page; nread = 0; nwrite = 0; readopen = true; writeopen = true }

-- The pipe, and whether its page is freed.
unfoldable pub pipeclose : Pipe → Bool → Pipe × Bool
pipeclose pi writable =
    let pi' =
      if writable then record pi { writeopen = false } else record pi { readopen = false } in
    (pi', not pi'.readopen && not pi'.writeopen)

abbrev pub is_full : Pipe → Bool
is_full pi = pi.nwrite == add_uint pi.nread pipe_size

abbrev pub is_empty : Pipe → Bool
is_empty pi = pi.nread == pi.nwrite

-- `pi->data[pi->nwrite++ % PIPESIZE] = ch`
abbrev pub put : Pipe → ℕ → Pipe
put pi ch = record pi {
  bytes = update pi.bytes (pi.nwrite % pipe_size) ch;
  nwrite = add_uint pi.nwrite 1;
}

-- `pi->data[pi->nread % PIPESIZE]`, and `pi->nread++`
abbrev pub front : Pipe → ℕ
front pi = pi.bytes (pi.nread % pipe_size)

abbrev pub drop_front : Pipe → Pipe
drop_front pi = record pi { nread = add_uint pi.nread 1 }

-- How a stretch of `pipewrite` ends: with the call's answer, or asleep on nwrite after `i` bytes.
pub data Stop : Type 0 where
  error : Stop
  count : ℕ → Stop
  asleep : ℕ → Stop

-- The loop of `pipewrite` from byte `i` up to its end or its next sleep, with the rounds left. While
-- it runs no other process changes the pipe, but `kkill` does not take pi->lock, so `killed i` is
-- what the round for byte `i` reads.
pub pipewrite_from : ℕ → (ℕ → Option ℕ) → (ℕ → Bool) → ℕ → Pipe → Stop × Pipe
pipewrite_from zero fetch killed i pi = (count i, pi)
pipewrite_from (suc rounds) fetch killed i pi = elim (not pi.readopen || killed i) [
  | true ↦ (error, pi)
  | false ↦ elim (is_full pi) [
    | true ↦ (asleep i, pi)
    | false ↦ elim (fetch i) [
      | none ↦ (count i, pi)
      | some ch ↦ pipewrite_from rounds fetch killed (i + 1) (put pi ch)
    ]
  ]
]

-- A call of `pipewrite` for `n` bytes that has written `i` of them.
unfoldable pub pipewrite : ℕ → (ℕ → Option ℕ) → (ℕ → Bool) → ℕ → Pipe → Stop × Pipe
pipewrite n fetch killed i pi = pipewrite_from (n - i) fetch killed i pi

-- The copying loop of `piperead` from byte `i`, with the rounds left; a byte that cannot be
-- delivered stays in the pipe. The bytes delivered are returned too.
pub piperead_from : ℕ → (ℕ → ℕ → Bool) → ℕ → Pipe → Stop × Pipe
piperead_from zero deliver i pi = (count i, pi)
piperead_from (suc rounds) deliver i pi = elim (is_empty pi) [
  | true ↦ (count i, pi)
  | false ↦ elim (deliver i (front pi)) [
    | false ↦ (if i == 0 then error else count i, pi)
    | true ↦ piperead_from rounds deliver (i + 1) (drop_front pi)
  ]
]

-- A call of `piperead` for `n` bytes, from the test for an empty pipe on: it sleeps on nread, fails
-- if it was killed, or copies.
unfoldable pub piperead : ℕ → (ℕ → ℕ → Bool) → Bool → Pipe → Stop × Pipe
piperead n deliver killed pi =
    if is_empty pi && pi.writeopen
    then (if killed then (error, pi) else (asleep 0, pi))
    else piperead_from n deliver 0 pi
