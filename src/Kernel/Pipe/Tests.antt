-- ===== src/Kernel/Pipe/Tests.antt =====
-- kernel/pipe.c: a pipe whose write counter has just wrapped.
use os_network_concurrency_s.Common.{
  ℕ, ◌+◌, ◌-◌, ◌^◌, ◌≡◌, Option, some, none, Bool, true, false, [], ◌∷◌, arith, refl, ltb,
  if◌then◌else◌,
}
use os_network_concurrency_s.Kernel.Pipe.{Pipe, pipewrite, piperead}
use os_network_concurrency_s.Kernel.Pipe.Fifo.{IsValid, contents}
use os_network_concurrency_s.Kernel.Pipe.Calls.{Written, Read, pipewrite-Written, piperead-Read}

abbrev wrapped : Pipe
wrapped = record {
  bytes = λ i. i;
  nread = 2 ^ 32 - 2;
  nwrite = 1;
  readopen = true;
  writeopen = true;
}

wrapped-IsValid : IsValid wrapped
wrapped-IsValid = omega arith

contents-wrapped : contents wrapped ≡ 510 ∷ 511 ∷ 0 ∷ []
contents-wrapped = refl

abbrev letters : ℕ → Option ℕ
letters i = if ltb i 2 then some (b'a' + i) else none

pipewrite-Written_example :
    Written letters (λ _. false) 0 3 wrapped (pipewrite 3 letters (λ _. false) 0 wrapped)
pipewrite-Written_example =
    pipewrite-Written letters (λ _. false) 3 0 wrapped (omega arith) wrapped-IsValid

-- Every byte but a 0 is delivered.
abbrev not_zero : ℕ → ℕ → Bool
not_zero i ch = ltb 0 ch

piperead-Read_example : Read not_zero 0 5 wrapped (piperead 5 not_zero false wrapped)
piperead-Read_example = piperead-Read not_zero 5 false wrapped wrapped-IsValid refl
