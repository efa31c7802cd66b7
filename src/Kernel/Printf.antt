-- ===== src/Kernel/Printf.antt =====
-- kernel/printf.c: printint. `buf` is the list of the characters that are in it; the loop that prints
-- goes over it from its end. `none` is a write beyond the buffer.
pub mod Digits
mod Tests
use os_network_concurrency_s.Common.{
  ℕ, zero, suc, ◌+◌, ◌-◌, ◌/◌, ◌%◌, ◌^◌, Option, none, some, leb, ltb, ◌==◌, if◌then◌else◌, Bool,
  true, false, ◌&&◌, List, [], ◌∷◌, ◌++◌, map, length,
}

-- `sizeof(buf)`
abbrev pub buf_size : ℕ
buf_size = 20

-- `digits[d]`
abbrev pub digit_char : ℕ → ℕ
digit_char d = if ltb d 10 then 48 + d else 87 + d

abbrev pub minus : ℕ
minus = 45

abbrev pub in_front : ℕ → Option (List ℕ) → Option (List ℕ)
in_front d none = none
in_front d (some ds) = some (d ∷ ds)

-- The first loop, with the room that is left in the buffer; the digits are those of `x`.
unfoldable pub digits_from : ℕ → ℕ → ℕ → Option (List ℕ)
digits_from base zero x = none
digits_from base (suc room) x =
    let rest = digits_from base room (x / base) in
    if x / base == 0 then some (x % base ∷ []) else in_front (x % base) rest

-- `xx < 0`, where `xx` is given as 64 bits
abbrev pub is_negative : Bool → ℕ → Bool
is_negative sign xx = sign && leb (2 ^ 63) xx

abbrev pub magnitude : Bool → ℕ → ℕ
magnitude sign xx = if is_negative sign xx then 2 ^ 64 - xx else xx

unfoldable pub signed : Bool → Option (List ℕ) → Option (List ℕ)
signed negative none = none
signed negative (some ds) =
    if negative
    then if ltb (length ds) buf_size then some (map digit_char ds ++ (minus ∷ [])) else none
    else some (map digit_char ds)

-- The buffer before the loop that prints it.
unfoldable pub printint : ℕ → ℕ → Bool → Option (List ℕ)
printint xx base sign = signed (is_negative sign xx) (digits_from base buf_size (magnitude sign xx))
