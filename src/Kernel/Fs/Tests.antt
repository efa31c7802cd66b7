-- ===== src/Kernel/Fs/Tests.antt =====
-- kernel/fs.c: a small disk with one file.
use os_network_concurrency_s.Common.{
  ℕ, ◌+◌, ◌/◌, ◌≡◌, ◌≢◌, ◌<◌, ltb, ◌==◌, if◌then◌else◌, update, arith, refl, List, [], ◌∷◌, map,
  take,
}
use os_network_concurrency_s.Kernel.Fs.Blocks.{Disk, Inode, bsize}
use os_network_concurrency_s.Kernel.Fs.Blocks.Bmap.{block_of, Owns}
use os_network_concurrency_s.Kernel.Fs.Content.Reads.{Reads}
use os_network_concurrency_s.Kernel.Fs.Paths.{
  slash, dirsiz, names, skipelem, first_elem, skip_slashes, skip_name,
}
use os_network_concurrency_s.Kernel.Fs.Paths.Elements.{elements, names-elements}
use os_network_concurrency_s.Kernel.Fs.Inodes.{Itable, iget}
use os_network_concurrency_s.Kernel.Fs.Inodes.Get.{Unique, GetEnds, iget-GetEnds}
use os_network_concurrency_s.Kernel.Fs.Dirs.{dirlookup}
use os_network_concurrency_s.Kernel.Fs.Dirs.Lookup.{IsDir}
use os_network_concurrency_s.Kernel.Fs.Dirs.Get.{LookOutcome, dirlookup-LookOutcome}

-- Blocks 0 to 3 are in use, and 3 is block 0 of the file.
abbrev disk : Disk
disk = record { size = 10; in_use = λ b. ltb b 4; bytes = λ b i. b }

abbrev file : Inode
file = record {
  type = 2;
  major = 0;
  minor = 0;
  nlink = 1;
  size = 1000;
  addrs = update (λ k. 0) 0 3;
}

abbrev text : ℕ → ℕ
text k = 65 + k

abbrev all_of_it : ℕ → ℕ
all_of_it k = 4096

file_block : (bn : ℕ) → block_of file disk bn ≡ (if bn == 0 then 3 else 0)
unfolding block_of
file_block bn = ground arith

file-Owns : Owns file disk
file-Owns = record {
  boot = refl;
  uint = omega arith;
  indirect = refl;
  used = λ bn lt. ground (arith, file_block bn);
  apart = λ bn lt nz q. absurd (ground (arith, nz, q));
  once = λ bn bm lt lm nz q. ground (arith, nz, q, file_block bn, file_block bm);
}

-- `//ab/c/`
abbrev path : List ℕ
path = slash ∷ slash ∷ 97 ∷ 98 ∷ slash ∷ 99 ∷ slash ∷ []

looked_up : names 7 path ≡ (97 ∷ 98 ∷ []) ∷ (99 ∷ []) ∷ []
unfolding names skipelem first_elem skip_slashes skip_name
looked_up = refl

names-elements_example : names 7 path ≡ map (take dirsiz) (elements path)
names-elements_example = names-elements 7 path (omega arith)

-- Entry 0 holds inode 7, which has lost its last link; the other entries are not used.
abbrev itable : Itable
itable = record {
  inode = λ i. record {
    dev = 1;
    inum = if i == 0 then 7 else 0;
    ref = if i == 0 then 1 else 0;
    valid = i == 0;
    copy = record file { nlink = 0 };
  };
  dinode = λ dev inum. record file { nlink = 0 };
  disk = disk;
}

itable-Unique : Unique itable
itable-Unique i j li lj ni nj d n = ground (arith, ni, nj)

iget-GetEnds_example : GetEnds 1 7 itable (iget 1 7 itable)
iget-GetEnds_example = iget-GetEnds 1 7 itable itable-Unique

-- A directory with one entry.
abbrev dir : Inode
dir = record file { type = 1; size = 16 }

dir-Owns : Owns dir disk
unfolding block_of
dir-Owns = record {
  boot = refl;
  uint = omega arith;
  indirect = refl;
  used = file-Owns.used;
  apart = file-Owns.apart;
  once = file-Owns.once;
}

dir-present : (x : ℕ) → x < 16 → block_of dir disk (x / bsize) ≢ 0
unfolding block_of
dir-present x l z = absurd (ground (arith, l, z))

dir-IsDir : IsDir dir disk
dir-IsDir = record { owns = dir-Owns; small = omega arith; whole = refl; present = dir-present }

-- Entry 0 holds the directory.
abbrev dir_table : Itable
dir_table = record itable {
  inode = λ i. record {
    dev = 1;
    inum = if i == 0 then 7 else 0;
    ref = if i == 0 then 1 else 0;
    valid = i == 0;
    copy = dir;
  };
}

dir_table-Unique : Unique dir_table
dir_table-Unique i j li lj ni nj d n = ground (arith, ni, nj)

dirlookup-LookOutcome_example : LookOutcome text 0 dir_table (dirlookup text 0 dir_table)
dirlookup-LookOutcome_example =
    dirlookup-LookOutcome text 0 dir_table refl dir-IsDir dir_table-Unique
