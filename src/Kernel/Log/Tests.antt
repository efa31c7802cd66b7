-- ===== src/Kernel/Log/Tests.antt =====
-- kernel/log.c: a commit of two blocks that is cut off before and after its header is written.
use os_network_concurrency_s.Common.{
  ℕ, ◌≡◌, inr, List, [], ◌∷◌, ◌||◌, if◌then◌else◌, ◌==◌, true, arith, refl,
}
use os_network_concurrency_s.Kernel.Log.Ops.{Log, Format, reboot, commit, recover_from_log}
use os_network_concurrency_s.Kernel.Log.Crash.{Ready, recoveries, commit-atomic}

-- A block is a list of words, and a header block the list of the header.
abbrev words : Format (List ℕ)
words = record { read = λ b. b; write = λ l b. l; read-write = λ l b le. refl }

abbrev modified : ℕ → Log (List ℕ)
modified power = record {
  start = 2;
  outstanding = 0;
  committing = true;
  lh = 40 ∷ 41 ∷ [];
  cache = λ a. if (a == 40) || (a == 41) then 7 ∷ [] else [];
  disk = λ a. [];
  power = power;
}

modified-Ready : (power : ℕ) → Ready words (modified power)
modified-Ready power = record {
  home = (inr (omega arith), (inr (omega arith), tt));
  fits = omega arith;
  header = refl;
  clean = λ a home out. ground (arith, out);
}

-- The machine stops in the second write of `install_trans`, and then in the first one of a recovery.
commit-atomic_example :
    (recover_from_log words
        (reboot 40 (recoveries words (0 ∷ 1 ∷ []) (commit words (modified 4))))).disk
      41
    ≡ 7 ∷ []
commit-atomic_example =
    commit-atomic words (modified 4) (0 ∷ 1 ∷ []) 40 41 (modified-Ready 4) (omega arith)
      (inr (omega arith))
