-- ===== src/Kernel/Strings/Moves.antt =====
-- kernel/string.c: memset and memmove.
use os_network_concurrency_s.Common.{
  ℕ, zero, suc, ◌+◌, ◌-◌, ◌%◌, ◌≡◌, ◌≤◌, ◌<◌, ◌⊎◌, ltb, leb, if◌then◌else◌, update, ◌&&◌, arith,
}
use os_network_concurrency_s.Kernel.Strings.{Bytes, memset, memmove, move_back, move_forth}

-- Memory after the `n` bytes at `s` have been copied to `d` at once.
abbrev pub copied : ℕ → ℕ → ℕ → Bytes → Bytes
copied d s n m a = if leb d a && ltb a (d + n) then m (s + (a - d)) else m a

move_back_lem : (d s n : ℕ) (m : Bytes) (a : ℕ) → s < d → move_back d s n m a ≡ copied d s n m a
unfolding move_back
move_back_lem d s zero m a lt = ground arith
move_back_lem d s (suc n) m a lt =
    let next = update m (d + n) (m (s + n)) in ground (arith, lt, move_back_lem d s n next a)

move_forth_lem :
    (d s n : ℕ) (m : Bytes) (a : ℕ)
    → (d ≤ s) ⊎ (s + n ≤ d)
    → move_forth d s n m a ≡ copied d s n m a
unfolding move_forth
move_forth_lem d s zero m a h = ground arith
move_forth_lem d s (suc n) m a h =
    let next = update m d (m s) in ground (arith, h, move_forth_lem (d + 1) (s + 1) n next a)

-- `memmove` copies the bytes of the source, as they were before the call, to the destination, and
-- changes no other byte, also where the two ranges overlap.
pub memmove-copied : (d s n : ℕ) (m : Bytes) (a : ℕ) → memmove d s n m a ≡ copied d s n m a
unfolding memmove
memmove-copied d s n m a = ground (arith, move_back_lem d s n m a, move_forth_lem d s n m a)

-- `memset` stores the low byte of `c` in the `n` bytes at `d`, and changes no other byte.
pub memset_lem :
    (d c n : ℕ) (m : Bytes) (a : ℕ)
    → memset d c n m a ≡ (if leb d a && ltb a (d + n) then c % 256 else m a)
unfolding memset
memset_lem d c zero m a = ground arith
memset_lem d c (suc n) m a =
    let next = update m d (c % 256) in ground (arith, memset_lem (d + 1) c n next a)
