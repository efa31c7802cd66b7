-- ===== src/Kernel/Fs/Blocks/Trunc.antt =====
-- kernel/fs.c: the blocks that itrunc frees.
use mathlib.Core.Path.{subst}
use os_network_concurrency_s.Common.{
  ℕ, ◌+◌, ◌-◌, ◌≡◌, ◌≢◌, ◌<◌, Option, some, ◌==◌, if◌then◌else◌, update, Bool, true, false, arith,
  refl, sym, ◌∙◌, ap, ℕ_discrete, dec_lt, inr,
}
use os_network_concurrency_s.Kernel.Fs.Blocks.{
  Disk, Inode, word, entries, ndirect, nindirect, maxfile, bfree, and_then, free_entries,
  free_indirect, emptied, then_indirect, trunc_blocks,
}
use os_network_concurrency_s.Kernel.Fs.Blocks.Bmap.{block_of, Owns}
use os_network_concurrency_s.Kernel.Fs.Blocks.Freeing.{
  Listed, Freed, Cleared, without, bfree_lem, free_entries-Freed, free_direct-Emptied,
}

-- What `trunc_blocks` leaves.
pub record Truncated (ip : Inode) (d : Disk) (jp : Inode) (e : Disk) : Type 0 where
  pub size : jp.size ≡ 0
  pub addrs : (k : ℕ) → k < ndirect + 1 → jp.addrs k ≡ 0
  pub freed : (bn : ℕ) → bn < maxfile → block_of ip d bn ≢ 0 → e.in_use (block_of ip d bn) ≡ false
  pub freed_indirect : ip.addrs ndirect ≢ 0 → e.in_use (ip.addrs ndirect) ≡ false
  pub others :
      (c : ℕ)
      → ((bn : ℕ) → bn < maxfile → block_of ip d bn ≢ 0 → block_of ip d bn ≢ c)
      → (ip.addrs ndirect ≢ 0 → ip.addrs ndirect ≢ c)
      → e.in_use c ≡ d.in_use c
  pub same_bytes : e.bytes ≡ d.bytes

direct_block : (ip : Inode) (d : Disk) (k : ℕ) → k < ndirect → block_of ip d k ≡ ip.addrs k
unfolding block_of
direct_block ip d k l = ground (arith, l)

indirect_block :
    (ip : Inode) (d : Disk) (j : ℕ)
    → ip.addrs ndirect ≢ 0
    → block_of ip d (j + ndirect) ≡ entries d (ip.addrs ndirect) j
unfolding block_of
indirect_block ip d j nz = ground (arith, nz)

no_block : (ip : Inode) (d : Disk) (j : ℕ) → ip.addrs ndirect ≡ 0 → block_of ip d (j + ndirect) ≡ 0
unfolding block_of
no_block ip d j z = ground (arith, z)

direct-Listed : (ip : Inode) (d : Disk) → Owns ip d → Listed ip.addrs 0 ndirect d
direct-Listed ip d h = record {
  used = λ k l u n. ap d.in_use (sym (direct_block ip d k u)) ∙ h.used k (ground (arith, u));
  once = λ k i l u m v n q. ground (
    arith,
    u,
    v,
    n,
    q,
    direct_block ip d k u,
    direct_block ip d i v,
    h.once k i (omega arith) (omega arith),
  );
}

module _ (ip jp : Inode) (d e : Disk) (h : Owns ip d) (w : Freed ip.addrs 0 ndirect d e)
    (c : Cleared 0 ndirect ip jp) where
  entries-Listed : ip.addrs ndirect ≢ 0 → Listed (entries d (ip.addrs ndirect)) 0 nindirect e
  entries-Listed nz = record {
    used = λ k l u n.
        let b = indirect_block ip d k nz in
        w.others (entries d (ip.addrs ndirect) k) (λ i m v j q. absurd (
          ground (
            arith,
            v,
            u,
            j,
            q,
            b,
            direct_block ip d i v,
            h.once i (k + ndirect) (omega arith) (omega arith),
          )))
        ∙ (ap d.in_use (sym b) ∙ h.used (k + ndirect) (omega arith));
    once = λ k i l u m v n q. ground (
      arith,
      u,
      v,
      n,
      q,
      indirect_block ip d k nz,
      indirect_block ip d i nz,
      h.once (k + ndirect) (i + ndirect) (omega arith) (omega arith),
    );
  }

  unindexed : ip.addrs ndirect ≡ 0 → Truncated ip d (record jp { size = 0 }) e
  unindexed z = record {
    size = refl;
    addrs = λ k l. elim (ℕ_discrete k ndirect) [
      | yes q ↦ ap jp.addrs q ∙ (c.other_addrs ndirect (inr (omega arith)) ∙ z)
      | no ne ↦ c.zero_addrs k (omega arith) (ground (arith, l, ne))
    ];
    freed = λ bn l n. elim (dec_lt bn ndirect) [
      | yes s ↦
          ap e.in_use (direct_block ip d bn s)
          ∙ w.free bn (omega arith) s (λ q. n (direct_block ip d bn s ∙ q))
      | no s ↦
          let q : bn - ndirect + ndirect ≡ bn = omega arith in
          absurd (n (ap (block_of ip d) (sym q) ∙ no_block ip d (bn - ndirect) z))
    ];
    freed_indirect = λ n. absurd (n z);
    others = λ x b n. w.others x (λ k l u m q.
        b k (omega arith) (λ r. m (sym (direct_block ip d k u) ∙ r)) (direct_block ip d k u ∙ q));
    same_bytes = w.same_bytes;
  }

  module _ (nz : ip.addrs ndirect ≢ 0) (f : Disk)
      (v : Freed (entries d (ip.addrs ndirect)) 0 nindirect e f) where
    still_used : f.in_use (ip.addrs ndirect) ≡ true
    still_used =
        v.others (ip.addrs ndirect) (λ k l u n q.
          h.apart (k + ndirect) (omega arith) (λ r. n (sym (indirect_block ip d k nz) ∙ r))
            (indirect_block ip d k nz ∙ q))
        ∙ (w.others (ip.addrs ndirect) (λ k l u n q.
              h.apart k (omega arith) (λ r. n (sym (direct_block ip d k u) ∙ r))
                (direct_block ip d k u ∙ q))
            ∙ h.indirect)

    indexed :
        Truncated ip d
          (record jp { addrs = update jp.addrs ndirect 0; size = 0 })
          (without (ip.addrs ndirect) f)
    indexed = record {
      size = refl;
      addrs = λ k l. elim (ℕ_discrete k ndirect) [
        | yes q ↦ ground (arith, q)
        | no ne ↦ ground (arith, ne, c.zero_addrs k (omega arith) (ground (arith, l, ne)))
      ];
      freed = λ bn l n. elim (dec_lt bn ndirect) [
        | yes s ↦
            let b = direct_block ip d bn s in
            let gone : f.in_use (block_of ip d bn) ≡ false =
              v.others (block_of ip d bn) (λ k m u j q. absurd (
                ground (
                  arith,
                  s,
                  u,
                  j,
                  q,
                  indirect_block ip d k nz,
                  h.once (k + ndirect) bn (omega arith) l,
                )))
              ∙ (ap e.in_use b ∙ w.free bn (omega arith) s (λ q. n (b ∙ q))) in
            ground (arith, gone)
        | no s ↦
            let q : bn - ndirect + ndirect ≡ bn = omega arith in
            let b = ap (block_of ip d) (sym q) ∙ indirect_block ip d (bn - ndirect) nz in
            let gone : f.in_use (block_of ip d bn) ≡ false =
              ap f.in_use b ∙ v.free (bn - ndirect) (omega arith) (omega arith) (λ r. n (b ∙ r)) in
            ground (arith, gone)
      ];
      freed_indirect = λ n. ground arith;
      others = λ x b n.
          let kept : f.in_use x ≡ d.in_use x =
            v.others x (λ k l u m q.
              b (k + ndirect) (omega arith) (λ r. m (sym (indirect_block ip d k nz) ∙ r))
                (indirect_block ip d k nz ∙ q))
            ∙ w.others x (λ k l u m q.
              b k (omega arith) (λ r. m (sym (direct_block ip d k u) ∙ r))
                (direct_block ip d k u ∙ q)) in
          ground (arith, kept, n nz);
      same_bytes = v.same_bytes ∙ w.same_bytes;
    }

-- The blocks of an inode, all in use and apart, are freed without a panic.
pub trunc_blocks-Truncated :
    (ip : Inode) (d : Disk)
    → Owns ip d
    → (jp : Inode) × ((e : Disk) × ((trunc_blocks ip d ≡ some (jp, e)) × Truncated ip d jp e))
unfolding trunc_blocks free_indirect and_then
trunc_blocks-Truncated ip d h =
    let (r, (q, (w, c))) =
      free_direct-Emptied ip.addrs ndirect 0 ip d (λ k l. refl) (direct-Listed ip d h) in
    let b = ip.addrs ndirect in
    let index : r.0.addrs ndirect ≡ b = c.other_addrs ndirect (inr (omega arith)) in
    let P : Option (Inode × Disk) → Type 0 =
      λ o. (jp : Inode) × ((e : Disk) × ((o ≡ some (jp, e)) × Truncated ip d jp e)) in
    subst (λ o. P (emptied (then_indirect o))) (sym q)
      (elim (ℕ_discrete b 0) [
        | yes z ↦
            let t : (r.0.addrs ndirect == 0) ≡ true = ground (arith, z, index) in
            subst
              (λ x. P (
                emptied (
                  if x
                  then some r
                  else and_then (free_entries nindirect 0 (r.0.addrs ndirect) r.1) (λ e.
                    and_then (bfree (r.0.addrs ndirect) e)
                      (λ f. some (record (r.0) { addrs = update r.0.addrs ndirect 0 }, f))))))
              (sym t) (_, (_, (refl, unindexed ip r.0 d r.1 h w c z)))
        | no nz ↦
            let t : (r.0.addrs ndirect == 0) ≡ false = ground (arith, nz, index) in
            let (f, (g, v)) =
              free_entries-Freed (entries d b) nindirect 0 b r.1 (ap (λ x. word (x b)) w.same_bytes)
                (entries-Listed ip r.0 d r.1 h w c nz) in
            let done : bfree b f ≡ some (without b f) =
              bfree_lem b f (still_used ip r.0 d r.1 h w c nz f v) in
            let Q : Bool → ℕ → Type 0 = λ x y. P (
              emptied (
                if x
                then some r
                else and_then (free_entries nindirect 0 y r.1) (λ e.
                  and_then (bfree y e)
                    (λ f. some (record (r.0) { addrs = update r.0.addrs ndirect 0 }, f))))) in
            subst (λ x. Q x (r.0.addrs ndirect)) (sym t)
              (subst (Q false) (sym index) (
                subst
                  (λ o. P (
                    emptied (
                      and_then o (λ e.
                        and_then (bfree b e)
                          (λ f. some (record (r.0) { addrs = update r.0.addrs ndirect 0 }, f))))))
                  (sym g)
                  (subst
                    (λ o. P (
                      emptied (
                        and_then o
                          (λ f. some (record (r.0) { addrs = update r.0.addrs ndirect 0 }, f)))))
                    (sym done) (_, (_, (refl, indexed ip r.0 d r.1 h w c nz f v))))))
      ])
