-- ===== src/Kernel/Log/Copies.antt =====
-- kernel/log.c: the two copying loops, cut off at any write.
use mathlib.Core.Path.{subst}
use os_network_concurrency_s.Common.{
  ℕ, ◌+◌, ◌-◌, ◌≡◌, ◌≢◌, ◌≤◌, ◌<◌, ◌⊎◌, inl, inr, update, true, false, List, [], ◌∷◌, length, arith,
  refl, Bool-cases, ℕ_discrete, ◌∙◌,
}
use os_network_concurrency_s.Kernel.Log.Ops.{
  Log, logged?, log_blocks, bwrite, copy_block, install_from, write_log_from,
}

-- The header block and the log blocks.
abbrev pub InLog : ℕ → ℕ → Type 0
InLog start a = (start ≤ a) × (a ≤ start + log_blocks)

abbrev pub IsHome : ℕ → ℕ → Type 0
IsHome start a = (a < start) ⊎ (start + log_blocks < a)

abbrev pub AllHome : ℕ → List ℕ → Type 0
AllHome start [] = Unit
AllHome start (b ∷ bs) = IsHome start b × AllHome start bs

-- The log blocks from `tail` on hold the new values of the blocks.
abbrev pub Copied : {B : Type 0} → (ℕ → B) → ℕ → ℕ → List ℕ → (ℕ → B) → Type 0
Copied d start tail [] v = Unit
Copied d start tail (b ∷ bs) v = (d (start + tail + 1) ≡ v b) × Copied d start (tail + 1) bs v

pub IsHome-of_logged :
    (start : ℕ) (bs : List ℕ) (a : ℕ) → AllHome start bs → logged? a bs ≡ true → IsHome start a
IsHome-of_logged start [] a _ e = absurd (ground (arith, e))
IsHome-of_logged start (b ∷ bs) a (h, hs) e = elim (ℕ_discrete b a) [
  | yes same ↦ subst (IsHome start) same h
  | no other ↦ IsHome-of_logged start bs a hs (ground (arith, e, other))
]

module _ {B : Type 0} where
  -- What `write_log` leaves, with the blocks of `bs` and their values `v`.
  pub record LogWritten (s t : Log B) (tail : ℕ) (bs : List ℕ) (v : ℕ → B) : Type 0 where
    pub same_start : t.start ≡ s.start
    pub same_lh : t.lh ≡ s.lh
    pub power : t.power ≡ s.power - length bs
    pub cache_outside :
        (a : ℕ) → (a ≤ s.start + tail) ⊎ (s.start + log_blocks < a) → t.cache a ≡ s.cache a
    pub disk_outside :
        (a : ℕ) → (a ≤ s.start + tail) ⊎ (s.start + log_blocks < a) → t.disk a ≡ s.disk a
    pub cached : Copied t.cache s.start tail bs v
    pub on_disk : t.power ≢ 0 → Copied t.disk s.start tail bs v

  pub write_log_from-LogWritten :
      (tail : ℕ) (bs : List ℕ) (s : Log B) (v : ℕ → B)
      → tail + length bs ≤ log_blocks
      → AllHome s.start bs
      → ((a : ℕ) → logged? a bs ≡ true → s.cache a ≡ v a)
      → LogWritten s (write_log_from tail bs s) tail bs v
  unfolding write_log_from copy_block bwrite
  write_log_from-LogWritten tail [] s v le home val = record {
    same_start = refl;
    same_lh = refl;
    power = omega arith;
    cache_outside = λ a h. refl;
    disk_outside = λ a h. refl;
    cached = tt;
    on_disk = λ _. tt;
  }
  write_log_from-LogWritten tail (b ∷ bs) s v le (home, homes) val =
      let to = s.start + tail + 1 in
      let s' = copy_block b to s in
      let new : s.cache b ≡ v b = val b (ground arith) in
      let rest =
        write_log_from-LogWritten (tail + 1) bs s' v (omega (arith, le)) homes
          (λ a e. ground (arith, val a, IsHome-of_logged s.start bs a homes e, e)) in
      record {
        same_start = rest.same_start;
        same_lh = rest.same_lh;
        power = omega (arith, rest.power);
        cache_outside = λ a h. ground (arith, rest.cache_outside a);
        disk_outside = λ a h. ground (arith, rest.disk_outside a);
        cached = (ground (arith, rest.cache_outside to), rest.cached);
        on_disk = λ on. (ground (arith, rest.disk_outside to, rest.power, on), rest.on_disk on);
      }

  Copied-update :
      (d : ℕ → B) (start tail : ℕ) (bs : List ℕ) (v : ℕ → B) (b : ℕ) (x : B)
      → IsHome start b
      → tail + length bs ≤ log_blocks
      → Copied d start tail bs v
      → Copied (update d b x) start tail bs v
  Copied-update d start tail [] v b x h le c = tt
  Copied-update d start tail (_ ∷ bs) v b x h le (c, cs) =
      (ground (arith, h, le, c), Copied-update d start (tail + 1) bs v b x h (omega (arith, le)) cs)

  -- What `install_trans` leaves.
  pub record Installed (s t : Log B) (bs : List ℕ) (v : ℕ → B) : Type 0 where
    pub same_start : t.start ≡ s.start
    pub same_lh : t.lh ≡ s.lh
    pub power : t.power ≡ s.power - length bs
    pub cache_outside : (a : ℕ) → logged? a bs ≡ false → t.cache a ≡ s.cache a
    pub disk_outside : (a : ℕ) → logged? a bs ≡ false → t.disk a ≡ s.disk a
    pub cached : (a : ℕ) → logged? a bs ≡ true → t.cache a ≡ v a
    pub on_disk : t.power ≢ 0 → (a : ℕ) → logged? a bs ≡ true → t.disk a ≡ v a

  pub install_from-Installed :
      (tail : ℕ) (bs : List ℕ) (s : Log B) (v : ℕ → B)
      → tail + length bs ≤ log_blocks
      → AllHome s.start bs
      → Copied s.cache s.start tail bs v
      → Installed s (install_from tail bs s) bs v
  unfolding install_from copy_block bwrite
  install_from-Installed tail [] s v le home copied = record {
    same_start = refl;
    same_lh = refl;
    power = omega arith;
    cache_outside = λ a h. refl;
    disk_outside = λ a h. refl;
    cached = λ a h. absurd (ground (arith, h));
    on_disk = λ _ a h. absurd (ground (arith, h));
  }
  install_from-Installed tail (b ∷ bs) s v le (home, homes) (new, copied) =
      let from = s.start + tail + 1 in
      let s' = copy_block from b s in
      let rest = install_from-Installed (tail + 1) bs s' v (omega (arith, le)) homes (
        Copied-update s.cache s.start (tail + 1) bs v b (s.cache from) home (omega (arith, le))
          copied) in
      record {
        same_start = rest.same_start;
        same_lh = rest.same_lh;
        power = omega (arith, rest.power);
        cache_outside = λ a h. ground (arith, h, rest.cache_outside a);
        disk_outside = λ a h. ground (arith, h, rest.disk_outside a);
        cached = λ a h. elim (Bool-cases (logged? a bs)) [
          | inl in_rest ↦ rest.cached a in_rest
          | inr last ↦ ground (arith, h, last, new, rest.cache_outside a)
        ];
        on_disk = λ on a h. elim (Bool-cases (logged? a bs)) [
          | inl in_rest ↦ rest.on_disk on a in_rest
          | inr last ↦ ground (arith, h, last, new, on, rest.power, rest.disk_outside a)
        ];
      }

  pub Copied-agree :
      (d d' : ℕ → B) (start tail : ℕ) (bs : List ℕ) (v : ℕ → B)
      → ((a : ℕ) → start < a → a ≤ start + log_blocks → d' a ≡ d a)
      → tail + length bs ≤ log_blocks
      → Copied d start tail bs v
      → Copied d' start tail bs v
  Copied-agree d d' start tail [] v same le c = tt
  Copied-agree d d' start tail (_ ∷ bs) v same le (c, cs) = (
    same (start + tail + 1) (omega (arith, le)) (omega (arith, le)) ∙ c,
    Copied-agree d d' start (tail + 1) bs v same (omega (arith, le)) cs,
  )

  pub install_from-off :
      (tail : ℕ) (bs : List ℕ) (s : Log B)
      → s.power ≡ 0
      → ((install_from tail bs s).power ≡ 0)
        × ((a : ℕ) → (install_from tail bs s).disk a ≡ s.disk a)
  unfolding install_from copy_block bwrite
  install_from-off tail [] s off = (off, λ a. refl)
  install_from-off tail (b ∷ bs) s off =
      let rest =
        install_from-off (tail + 1) bs (copy_block (s.start + tail + 1) b s) (omega (arith, off)) in
      (rest.0, λ a. ground (arith, off, rest.1 a))

  pub install_from-start :
      (tail : ℕ) (bs : List ℕ) (s : Log B) → (install_from tail bs s).start ≡ s.start
  unfolding install_from copy_block bwrite
  install_from-start tail [] s = refl
  install_from-start tail (b ∷ bs) s =
      install_from-start (tail + 1) bs (copy_block (s.start + tail + 1) b s)
