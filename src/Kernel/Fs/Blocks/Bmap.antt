-- ===== src/Kernel/Fs/Blocks/Bmap.antt =====
-- kernel/fs.c: balloc and bmap.
use mathlib.Core.Path.{subst}
use os_network_concurrency_s.Common.{
  ℕ, zero, suc, ◌+◌, ◌-◌, ◌^◌, ◌≡◌, ◌≢◌, ◌<◌, ◌≤◌, Option, none, some, ltb, ◌==◌, if◌then◌else◌,
  Bool, true, false, arith, refl, sym, ◌∙◌, ap, ℕ_discrete, Bool-cases, ◌⊎◌, inl, inr,
}
use os_network_concurrency_s.Kernel.Fs.Blocks.{
  Disk, Inode, Mapping, entries, word, ndirect, maxfile, bzero, find_block, balloc_found, balloc,
}

-- The block that holds block `bn` of the file, or 0.
unfoldable pub block_of : Inode → Disk → ℕ → ℕ
block_of ip d bn =
    if ltb bn ndirect
    then ip.addrs bn
    else if ip.addrs ndirect == 0
    then 0
    else entries d (ip.addrs ndirect) (bn - ndirect)

-- The blocks of the inode are in use, and none of them serves twice.
pub record Owns (ip : Inode) (d : Disk) : Type 0 where
  pub boot : d.in_use 0 ≡ true
  pub uint : d.size < 2 ^ 32
  pub indirect : d.in_use (ip.addrs ndirect) ≡ true
  pub used : (bn : ℕ) → bn < maxfile → d.in_use (block_of ip d bn) ≡ true
  pub apart : (bn : ℕ) → bn < maxfile → block_of ip d bn ≢ 0 → block_of ip d bn ≢ ip.addrs ndirect
  pub once :
      (bn bm : ℕ)
      → bn < maxfile
      → bm < maxfile
      → block_of ip d bn ≢ 0
      → block_of ip d bn ≡ block_of ip d bm
      → bn ≡ bm

-- No block is free.
abbrev pub Full : Disk → Type 0
Full d = (b : ℕ) → b < d.size → d.in_use b ≡ true

-- What `balloc` does: nothing, or one block more in use, which was free and is zero now.
pub record Allocated (d : Disk) (a : ℕ) (e : Disk) : Type 0 where
  pub fresh : a ≢ 0 → d.in_use a ≡ false
  pub marked : (b : ℕ) → e.in_use b ≡ (if (a == b) then true else d.in_use b)
  pub kept_bytes : (b : ℕ) → a ≢ b → e.bytes b ≡ d.bytes b
  pub zero_bytes : a ≢ 0 → (i : ℕ) → e.bytes a i ≡ 0
  pub zero_entries : a ≢ 0 → (i : ℕ) → entries e a i ≡ 0
  pub nothing : a ≡ 0 → e ≡ d
  pub low : a ≤ d.size
  pub same_size : e.size ≡ d.size
  pub full : a ≡ 0 → Full d

pub kept_entries :
    (d : Disk) (a : ℕ) (e : Disk) → Allocated d a e → (b : ℕ) → a ≢ b → entries e b ≡ entries d b
kept_entries d a e al b n = ap word (al.kept_bytes b n)

find_block-some :
    (n b : ℕ) (in_use : ℕ → Bool) (a : ℕ)
    → find_block n b in_use ≡ some a
    → (in_use a ≡ false) × (a < b + n)
unfolding find_block
find_block-some zero b in_use a e = absurd (ground (arith, e))
find_block-some (suc n) b in_use a e = ground (arith, e, find_block-some n (b + 1) in_use a)

find_block-none :
    (n b : ℕ) (in_use : ℕ → Bool)
    → find_block n b in_use ≡ none
    → (c : ℕ) → b ≤ c
    → c < b + n
    → in_use c ≡ true
unfolding find_block
find_block-none zero b in_use e c l u = absurd (ground (arith, l, u))
find_block-none (suc n) b in_use e c l u = elim (Bool-cases (in_use b)) [
  | inl t ↦ elim (ℕ_discrete b c) [
    | yes q ↦ subst (λ x. in_use x ≡ true) q t
    | no ne ↦
        find_block-none n (b + 1) in_use (ground (arith, e, t)) c (ground (arith, l, ne))
          (omega arith)
  ]
  | inr f ↦ absurd (ground (arith, e, f))
]

balloc_found-Allocated :
    (o : Option ℕ) (d : Disk)
    → find_block d.size 0 d.in_use ≡ o
    → d.in_use 0 ≡ true
    → Allocated d (balloc_found o d).0 (balloc_found o d).1
unfolding balloc_found bzero word
balloc_found-Allocated none d e boot = record {
  fresh = λ n. absurd (n refl);
  marked = λ b. ground (arith, boot);
  kept_bytes = λ b n. refl;
  zero_bytes = λ n. absurd (n refl);
  zero_entries = λ n. absurd (n refl);
  nothing = λ _. refl;
  low = omega arith;
  same_size = refl;
  full = λ _ b l. find_block-none d.size 0 d.in_use e b (omega arith) (omega arith);
}
balloc_found-Allocated (some a) d e boot =
    let (free, lt) = find_block-some d.size 0 d.in_use a e in
    record {
      fresh = λ _. free;
      marked = λ b. refl;
      kept_bytes = λ b n. ground (arith, n);
      zero_bytes = λ _ i. ground arith;
      zero_entries = λ _ i. ground arith;
      low = omega arith;
      same_size = refl;
      nothing = λ z. absurd (ground (arith, z, free, boot));
      full = λ z. absurd (ground (arith, z, free, boot));
    }

pub balloc-Allocated : (d : Disk) → d.in_use 0 ≡ true → Allocated d (balloc d).0 (balloc d).1
unfolding balloc
balloc-Allocated d boot = balloc_found-Allocated (find_block d.size 0 d.in_use) d refl boot

-- What `bmap` for block `bn` of the file leaves.
pub record Mapped (bn : ℕ) (ip : Inode) (d : Disk) (m : Mapping) : Type 0 where
  pub owns : Owns m.inode m.disk
  pub found : block_of m.inode m.disk bn ≡ m.addr
  pub kept :
      (bm : ℕ)
      → bm < maxfile
      → (bm ≢ bn) ⊎ (block_of ip d bm ≢ 0)
      → block_of m.inode m.disk bm ≡ block_of ip d bm
  -- Blocks that were in use keep their bytes, but for the indirect block; a new block is zero.
  pub kept_bytes :
      (b i : ℕ) → d.in_use b ≡ true → b ≢ m.inode.addrs ndirect → m.disk.bytes b i ≡ d.bytes b i
  pub new_zero : block_of ip d bn ≡ 0 → m.addr ≢ 0 → (i : ℕ) → m.disk.bytes m.addr i ≡ 0
  pub still_used : (b : ℕ) → d.in_use b ≡ true → m.disk.in_use b ≡ true
  pub same_size : m.inode.size ≡ ip.size
  pub same_type : m.inode.type ≡ ip.type
  pub full : m.addr ≡ 0 → Full m.disk

-- The new block `a` becomes block `bn` of the file.
grown-Owns :
    (bn a : ℕ) (ip jp : Inode) (d e : Disk)
    → Owns ip d
    → d.in_use a ≡ false
    → ((b : ℕ) → e.in_use b ≡ (if (a == b) then true else d.in_use b))
    → e.size ≡ d.size
    → jp.addrs ndirect ≡ ip.addrs ndirect
    → block_of jp e bn ≡ a
    → ((bm : ℕ) → bm < maxfile → bm ≢ bn → block_of jp e bm ≡ block_of ip d bm)
    → Owns jp e
grown-Owns bn a ip jp d e h free marked uint ind new same = record {
  boot = ground (arith, h.boot, marked 0);
  uint = ground (arith, h.uint, uint);
  indirect = ground (arith, h.indirect, ind, marked (jp.addrs ndirect));
  used = λ bm lt. ground (arith, lt, new, same bm lt, h.used bm lt, marked (block_of jp e bm));
  apart = λ bm lt nz eq.
      ground (arith, lt, nz, eq, new, same bm lt, ind, free, h.indirect, h.apart bm lt);
  once = λ bm bk lt lk nz eq. ground (
    arith,
    nz,
    eq,
    new,
    free,
    same bm lt,
    same bk lk,
    h.used bm lt,
    h.used bk lk,
    h.once bm bk lt lk,
  );
}

-- Nothing changes.
pub still-Mapped :
    (bn a : ℕ) (ip : Inode) (d : Disk)
    → Owns ip d
    → block_of ip d bn ≡ a
    → (a ≡ 0 → Full d)
    → Mapped bn ip d (record { addr = a; inode = ip; disk = d })
still-Mapped bn a ip d h f u = record {
  owns = h;
  found = f;
  kept = λ bm lt _. refl;
  kept_bytes = λ b i u n. refl;
  new_zero = λ z n i. absurd (n (sym f ∙ z));
  still_used = λ b w. w;
  same_size = refl;
  same_type = refl;
  full = u;
}

pub grown-Mapped :
    (bn a : ℕ) (ip jp : Inode) (d e f : Disk)
    → bn < maxfile
    → a ≢ 0
    → Owns ip d
    → Allocated d a e
    → ((b : ℕ) → f.in_use b ≡ e.in_use b)
    → f.size ≡ e.size
    → ((b i : ℕ) → b ≢ jp.addrs ndirect → f.bytes b i ≡ e.bytes b i)
    → jp.addrs ndirect ≡ ip.addrs ndirect
    → jp.size ≡ ip.size
    → jp.type ≡ ip.type
    → block_of ip d bn ≡ 0
    → block_of jp f bn ≡ a
    → ((bm : ℕ) → bm < maxfile → bm ≢ bn → block_of jp f bm ≡ block_of ip d bm)
    → Mapped bn ip d (record { addr = a; inode = jp; disk = f })
grown-Mapped bn a ip jp d e f lt nz h al uses uint keeps ind size kind old new same = record {
  owns =
      grown-Owns bn a ip jp d f h (al.fresh nz) (λ b. uses b ∙ al.marked b) (uint ∙ al.same_size)
        ind new same;
  found = new;
  kept = λ bm l c. ground (arith, c, old, same bm l);
  kept_bytes = λ b i u n.
      keeps b i n
      ∙ ap (λ g. g i) (al.kept_bytes b (λ q. absurd (ground (arith, q, u, al.fresh nz))));
  new_zero = λ z n i.
      keeps a i (λ q. absurd (ground (arith, q, ind, h.indirect, al.fresh nz)))
      ∙ al.zero_bytes nz i;
  still_used = λ b u. ground (arith, u, uses b, al.marked b);
  same_size = size;
  same_type = kind;
  full = λ z. absurd (nz z);
}

-- The new block `a` becomes the indirect block; the blocks of the file stay.
pub indirect-Owns :
    (a : ℕ) (ip jp : Inode) (d e : Disk)
    → Owns ip d
    → d.in_use a ≡ false
    → ((b : ℕ) → e.in_use b ≡ (if (a == b) then true else d.in_use b))
    → e.size ≡ d.size
    → jp.addrs ndirect ≡ a
    → ((bm : ℕ) → bm < maxfile → block_of jp e bm ≡ block_of ip d bm)
    → Owns jp e
indirect-Owns a ip jp d e h free marked uint ind same = record {
  boot = ground (arith, h.boot, marked 0);
  uint = ground (arith, h.uint, uint);
  indirect = ground (arith, ind, marked (jp.addrs ndirect));
  used = λ bm lt. ground (arith, lt, same bm lt, h.used bm lt, marked (block_of jp e bm));
  apart = λ bm lt nz eq. absurd (ground (arith, lt, nz, eq, ind, same bm lt, free, h.used bm lt));
  once = λ bm bk lt lk nz eq. ground (arith, nz, eq, same bm lt, same bk lk, h.once bm bk lt lk);
}
