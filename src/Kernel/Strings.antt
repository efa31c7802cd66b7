-- ===== src/Kernel/Strings.antt =====
-- kernel/string.c, over memory as a function from addresses to bytes. An address range does not run
-- past the end of the address space, and a count is not negative.
pub mod Moves
pub mod Compare
mod Tests
use os_network_concurrency_s.Common.{
  ℕ, zero, suc, ◌+◌, ◌-◌, ◌%◌, Option, none, some, ltb, leb, ◌==◌, if◌then◌else◌, update, not, ◌&&◌,
  Bool, true, false,
}

abbrev pub Bytes : Type 0
Bytes = ℕ → ℕ

pub data ℤ : Type 0 where
  pos : ℕ → ℤ
  negsuc : ℕ → ℤ

-- The int `a - b` of two bytes.
abbrev pub sub_int : ℕ → ℕ → ℤ
sub_int a b = if leb b a then pos (a - b) else negsuc (b - a - 1)

-- The loop of `memset`, from the address `d`, with the rounds left.
unfoldable pub memset : ℕ → ℕ → ℕ → Bytes → Bytes
memset d c zero m = m
memset d c (suc n) m = memset (d + 1) c n (update m d (c % 256))

unfoldable pub memcmp : ℕ → ℕ → ℕ → Bytes → ℤ
memcmp p q zero m = pos 0
memcmp p q (suc n) m = if m p == m q then memcmp (p + 1) (q + 1) n m else sub_int (m p) (m q)

-- `while(n-- > 0) *--d = *--s`, from the ends of `n` bytes at `d` and `s`
unfoldable pub move_back : ℕ → ℕ → ℕ → Bytes → Bytes
move_back d s zero m = m
move_back d s (suc n) m = move_back d s n (update m (d + n) (m (s + n)))

-- `while(n-- > 0) *d++ = *s++`
unfoldable pub move_forth : ℕ → ℕ → ℕ → Bytes → Bytes
move_forth d s zero m = m
move_forth d s (suc n) m = move_forth (d + 1) (s + 1) n (update m d (m s))

unfoldable pub memmove : ℕ → ℕ → ℕ → Bytes → Bytes
memmove d s n m =
    if n == 0 then m else if ltb s d && ltb d (s + n) then move_back d s n m else move_forth d s n m

unfoldable pub memcpy : ℕ → ℕ → ℕ → Bytes → Bytes
memcpy d s n m = memmove d s n m

unfoldable pub strncmp : ℕ → ℕ → ℕ → Bytes → ℤ
strncmp p q zero m = pos 0
strncmp p q (suc n) m =
    if not (m p == 0) && (m p == m q) then strncmp (p + 1) (q + 1) n m else sub_int (m p) (m q)

-- The second loop of `strncpy`.
unfoldable pub fill_zero : ℕ → ℕ → Bytes → Bytes
fill_zero s zero m = m
fill_zero s (suc n) m = fill_zero (s + 1) n (update m s 0)

-- The zeros are written from the first NUL of `t` on.
unfoldable pub strncpy : ℕ → ℕ → ℕ → Bytes → Bytes
strncpy s t zero m = m
strncpy s t (suc n) m =
    let copied = update m s (m t) in
    if m t == 0 then fill_zero (s + 1) n copied else strncpy (s + 1) (t + 1) n copied

-- The loop of `safestrcpy` with `n` bytes left before the last one, and the NUL after it.
unfoldable pub safestrcpy_from : ℕ → ℕ → ℕ → Bytes → Bytes
safestrcpy_from s t zero m = update m s 0
safestrcpy_from s t (suc n) m =
    let copied = update m s (m t) in
    if m t == 0 then update copied (s + 1) 0 else safestrcpy_from (s + 1) (t + 1) n copied

unfoldable pub safestrcpy : ℕ → ℕ → ℕ → Bytes → Bytes
safestrcpy s t n m = if n == 0 then m else safestrcpy_from s t (n - 1) m

-- The loop of `strlen` from `n`, on fuel.
unfoldable pub strlen_from : ℕ → ℕ → ℕ → Bytes → Option ℕ
strlen_from zero n s m = none
strlen_from (suc fuel) n s m = if m (s + n) == 0 then some n else strlen_from fuel (n + 1) s m
