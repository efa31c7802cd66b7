-- ===== src/Kernel/Bio/Tests.antt =====
-- kernel/bio.c: a cache of three buffers.
use os_network_concurrency_s.Common.{ℕ, ◌+◌, ◌-◌, ◌==◌, if◌then◌else◌, true, [], ◌∷◌, arith, refl}
use os_network_concurrency_s.Kernel.Bio.{Cache, bget}
use os_network_concurrency_s.Kernel.Bio.Unique.{IsUnique, BgetEnds, bget-BgetEnds}
use os_network_concurrency_s.Kernel.Bio.Recent.{
  Ring, Distinct, head, brelse, Released, brelse-Released,
}

-- Buffer `i` has block 10 + i; buffer 1 is in use.
abbrev three : Cache ℕ
three = record {
  buf = λ i. record {
    valid = true;
    dev = 1;
    blockno = 10 + i;
    refcnt = if i == 1 then 1 else 0;
    content = i;
  };
  order = 2 ∷ 1 ∷ 0 ∷ [];
}

three-IsUnique : IsUnique three
three-IsUnique i j hi hj nz e e' = omega (arith, e')

bget-BgetEnds_example : BgetEnds 1 11 three (bget 1 11 three)
bget-BgetEnds_example = bget-BgetEnds 1 11 three three-IsUnique (λ e. omega (arith, e))

-- The same buffers with their pointers: the head, 2, 1, 0.
abbrev three_linked : Ring ℕ
three_linked = record {
  buf = three.buf;
  links = record {
    next = λ b. if b == head then 2 else if b == 0 then head else b - 1;
    prev = λ b. if b == head then 0 else if b == 2 then head else b + 1;
  };
}

three-Distinct : Distinct (head ∷ 2 ∷ 1 ∷ 0 ∷ [])
three-Distinct = (
  λ a i. ground (arith, i),
  (λ a i. ground (arith, i), (λ a i. ground (arith, i), (λ a i. absurd i, tt))),
)

brelse-Released_example : Released 1 (2 ∷ []) (0 ∷ []) three_linked (brelse 1 three_linked)
brelse-Released_example =
    brelse-Released 1 (2 ∷ []) (0 ∷ []) three_linked three-Distinct
      (refl, (refl, (refl, (refl, (refl, (refl, (refl, refl))))))) (omega arith) (omega arith)
