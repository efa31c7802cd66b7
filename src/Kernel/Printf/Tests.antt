-- ===== src/Kernel/Printf/Tests.antt =====
-- kernel/printf.c: some numbers.
use os_network_concurrency_s.Common.{
  ℕ, ◌-◌, ◌^◌, ◌≡◌, ◌≤◌, some, true, List, [], ◌∷◌, length, arith, refl,
}
use os_network_concurrency_s.Kernel.Printf.{buf_size, is_negative, printint, signed, digits_from}
use os_network_concurrency_s.Kernel.Printf.Digits.{ten, PrintsTo, printint-PrintsTo}

-- -42
minus_42 : printint (2 ^ 64 - 42) 10 true ≡ some (50 ∷ 52 ∷ 45 ∷ [])
unfolding printint signed digits_from
minus_42 = refl

printint-PrintsTo_example :
    (buf : List ℕ) × ((printint (2 ^ 64 - 42) 10 true ≡ some buf)
      × ((length buf ≤ buf_size) × PrintsTo (2 ^ 64 - 42) 10 (is_negative true (2 ^ 64 - 42)) buf))
printint-PrintsTo_example = printint-PrintsTo (2 ^ 64 - 42) 10 true ten (omega arith)
