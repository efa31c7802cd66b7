-- ===== src/Kernel/Bio.antt =====
-- kernel/bio.c: the buffer cache. Each section under `bcache.lock` is one step; the sleep lock of a
-- buffer is left out, and a buffer is the number of its place in `bcache.buf`.
pub mod Find
pub mod Unique
pub mod Recent
mod Tests
use os_network_concurrency_s.Common.{
  ℕ, zero, suc, ◌+◌, ◌-◌, Option, none, some, ◌==◌, if◌then◌else◌, update, ◌&&◌, not, Bool, true,
  false, List, [], ◌∷◌, add_uint, sub_uint, leb, ◌%◌, ◌^◌,
}

abbrev pub nbuf : ℕ
nbuf = 30

-- `struct buf`, with the block's content.
pub record Buf (D : Type 0) : Type 0 where
  pub valid : Bool
  pub dev : ℕ
  pub blockno : ℕ
  pub refcnt : ℕ
  pub content : D

-- `bcache`: the list through `next`, from `head.next` on, is `order`.
pub record Cache (D : Type 0) : Type 0 where
  pub buf : ℕ → Buf D
  pub order : List ℕ

-- `n` buffers, the last one in front.
abbrev pub linked : ℕ → List ℕ
linked zero = []
linked (suc n) = n ∷ linked n

module _ {D : Type 0} where
  unfoldable pub binit : Cache D → Cache D
  binit s = record s { order = linked nbuf }

  abbrev pub with_buf : ℕ → Buf D → Cache D → Cache D
  with_buf b v s = record s { buf = update s.buf b v }

  abbrev pub holds : ℕ → ℕ → Buf D → Bool
  holds dev blockno v = (v.dev == dev) && (v.blockno == blockno)

  -- The first loop of `bget`, along `next`.
  unfoldable pub find_cached : ℕ → ℕ → (ℕ → Buf D) → List ℕ → Option ℕ
  find_cached dev blockno buf [] = none
  find_cached dev blockno buf (b ∷ bs) =
      if holds dev blockno (buf b) then some b else find_cached dev blockno buf bs

  -- The rounds of the second loop after those for the rest of the list.
  abbrev pub or_unused : (ℕ → Buf D) → ℕ → Option ℕ → Option ℕ
  or_unused buf b (some c) = some c
  or_unused buf b none = if (buf b).refcnt == 0 then some b else none

  -- The second loop of `bget`, along `prev`: the end of the list first.
  unfoldable pub find_unused : (ℕ → Buf D) → List ℕ → Option ℕ
  find_unused buf [] = none
  find_unused buf (b ∷ bs) = or_unused buf b (find_unused buf bs)

  -- With the buffer that the second loop found; `none` is a panic.
  unfoldable pub recycle : ℕ → ℕ → Option ℕ → Cache D → Option (ℕ × Cache D)
  recycle dev blockno none s = none
  recycle dev blockno (some b) s = some (
    b,
    with_buf b (record (s.buf b) { dev = dev; blockno = blockno; valid = false; refcnt = 1 }) s,
  )

  -- With the buffer that the first loop found.
  unfoldable pub bget_from : ℕ → ℕ → Option ℕ → Cache D → Option (ℕ × Cache D)
  bget_from dev blockno none s = recycle dev blockno (find_unused s.buf s.order) s
  bget_from dev blockno (some b) s =
      some (b, with_buf b (record (s.buf b) { refcnt = add_uint (s.buf b).refcnt 1 }) s)

  unfoldable pub bget : ℕ → ℕ → Cache D → Option (ℕ × Cache D)
  bget dev blockno s = bget_from dev blockno (find_cached dev blockno s.buf s.order) s

  -- `bread` after `bget`: the content comes from the disk, unless it is there.
  unfoldable pub fill : (ℕ → ℕ → D) → Option (ℕ × Cache D) → Option (ℕ × Cache D)
  fill disk none = none
  fill disk (some (b, s)) =
      let v = s.buf b in
      some (
        b,
        if v.valid
            then s
            else with_buf b (record v { content = disk v.dev v.blockno; valid = true }) s,
      )

  unfoldable pub bread : (ℕ → ℕ → D) → ℕ → ℕ → Cache D → Option (ℕ × Cache D)
  bread disk dev blockno s = fill disk (bget dev blockno s)

  unfoldable pub bpin : ℕ → Cache D → Cache D
  bpin b s = with_buf b (record (s.buf b) { refcnt = add_uint (s.buf b).refcnt 1 }) s

  unfoldable pub bunpin : ℕ → Cache D → Cache D
  bunpin b s = with_buf b (record (s.buf b) { refcnt = sub_uint (s.buf b).refcnt 1 }) s
