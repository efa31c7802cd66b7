-- ===== src/Kernel/Log/Ops.antt =====
-- kernel/log.c: the functions. Each `acquire(&log.lock)` section is one step.
use os_network_concurrency_s.Common.{
  ℕ, ◌+◌, ◌-◌, ◌*◌, ◌≡◌, ◌≤◌, Option, none, some, ltb, leb, ◌==◌, if◌then◌else◌, update, Bool, true,
  false, ◌||◌, List, [], ◌∷◌, ◌++◌, length,
}

abbrev pub max_op_blocks : ℕ
max_op_blocks = 10

abbrev pub log_blocks : ℕ
log_blocks = 30

-- `struct logheader` over a block: `write` changes the part of a block that holds the header.
pub record Format (B : Type 0) : Type 0 where
  pub read : B → List ℕ
  pub write : List ℕ → B → B
  pub read-write : (l : List ℕ) (b : B) → length l ≤ log_blocks → read (write l b) ≡ l

-- `struct log`, with `lh.n` and `lh.block` as the list `lh`.
pub record Log (B : Type 0) : Type 0 where
  pub start : ℕ
  pub outstanding : ℕ
  pub committing : Bool
  pub lh : List ℕ
  pub cache : ℕ → B
  pub disk : ℕ → B
  pub power : ℕ

-- The loop `log.lh.block[i] == blockno`.
abbrev pub logged? : ℕ → List ℕ → Bool
logged? a [] = false
logged? a (b ∷ bs) = (b == a) || logged? a bs

module _ {B : Type 0} where
  -- `bwrite`: the cached block goes to the disk, if the machine still runs.
  unfoldable pub bwrite : ℕ → Log B → Log B
  bwrite b s = record s {
    disk = update s.disk b (if s.power == 0 then s.disk b else s.cache b);
    power = s.power - 1;
  }

  -- `bread` of two blocks, `memmove` from one to the other, `bwrite` of the other.
  unfoldable pub copy_block : ℕ → ℕ → Log B → Log B
  unfolding bwrite
  copy_block from to s = bwrite to (record s { cache = update s.cache to (s.cache from) })

  -- The loop of `install_trans` from log block `tail` on.
  unfoldable pub install_from : ℕ → List ℕ → Log B → Log B
  install_from tail [] s = s
  install_from tail (b ∷ bs) s = install_from (tail + 1) bs (copy_block (s.start + tail + 1) b s)

  unfoldable pub install_trans : Log B → Log B
  install_trans s = install_from 0 s.lh s

  -- The loop of `write_log` from log block `tail` on.
  unfoldable pub write_log_from : ℕ → List ℕ → Log B → Log B
  write_log_from tail [] s = s
  write_log_from tail (b ∷ bs) s =
      write_log_from (tail + 1) bs (copy_block b (s.start + tail + 1) s)

  unfoldable pub write_log : Log B → Log B
  write_log s = write_log_from 0 s.lh s

  -- The critical section of `begin_op`: `none` is a sleep on the log.
  unfoldable pub begin_op : Log B → Option (Log B)
  begin_op s =
      if s.committing
      then none
      else if ltb log_blocks (length s.lh + (s.outstanding + 1) * max_op_blocks)
      then none
      else some (record s { outstanding = s.outstanding + 1 })

  -- The first critical section of `end_op`: whether to commit. `none` is a panic, or an end without
  -- a begin, where the source would count below 0.
  unfoldable pub end_op_begin : Log B → Option (Bool × Log B)
  end_op_begin s =
      let left = s.outstanding - 1 in
      if s.outstanding == 0
      then none
      else if s.committing
      then none
      else if left == 0
      then some (true, record s { outstanding = left; committing = true })
      else some (false, record s { outstanding = left })

  -- The last critical section of `end_op`.
  unfoldable pub end_op_done : Log B → Log B
  end_op_done s = record s { committing = false }

  -- `none` is a panic. A block that is in the log already is absorbed.
  unfoldable pub log_write : ℕ → Log B → Option (Log B)
  log_write blockno s =
      if leb log_blocks (length s.lh)
      then none
      else if ltb s.outstanding 1
      then none
      else some (if logged? blockno s.lh then s else record s { lh = s.lh ++ (blockno ∷ []) })

  module _ (format : Format B) where
    unfoldable pub read_head : Log B → Log B
    read_head s = record s { lh = format.read (s.cache s.start) }

    unfoldable pub write_head : Log B → Log B
    unfolding bwrite
    write_head s =
        bwrite s.start
          (record s { cache = update s.cache s.start (format.write s.lh (s.cache s.start)) })

    unfoldable pub recover_from_log : Log B → Log B
    recover_from_log s = write_head (record (install_trans (read_head s)) { lh = [] })

    -- The part of `commit` under its test.
    unfoldable pub commit_all : Log B → Log B
    commit_all s = write_head (record (install_trans (write_head (write_log s))) { lh = [] })

    unfoldable pub commit : Log B → Log B
    commit s = if length s.lh == 0 then s else commit_all s

    unfoldable pub end_op : Log B → Option (Log B)
    end_op s = elim (end_op_begin s) [
      | none ↦ none
      | some (do_commit, s') ↦ some (if do_commit then end_op_done (commit s') else s')
    ]

  -- After a crash: what was only in memory is gone.
  unfoldable pub reboot : ℕ → Log B → Log B
  reboot power s = record s {
    outstanding = 0;
    committing = false;
    lh = [];
    cache = s.disk;
    power = power;
  }
