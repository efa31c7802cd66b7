-- ===== src/Kernel/File.antt =====
-- kernel/file.c: the table of open files. Each section under `ftable.lock` is one step, and a file is
-- the number of its place in the table.
pub mod Counts
mod Tests
use os_network_concurrency_s.Common.{
  ℕ, zero, suc, ◌+◌, ◌-◌, ◌^◌, Option, none, some, leb, ltb, ◌==◌, if◌then◌else◌, update, Bool,
  true, false,
}
use os_network_concurrency_s.Common.Outcome.{Outcome, returns, panics, faults}

abbrev pub nfile : ℕ
nfile = 100

pub data Kind : Type 0 where
  fd_none : Kind
  fd_pipe : Kind
  fd_inode : Kind
  fd_device : Kind

-- `struct file`, with a pipe and an inode as numbers.
pub record File : Type 0 where
  pub type : Kind
  pub ref : ℕ
  pub readable : Bool
  pub writable : Bool
  pub pipe : ℕ
  pub ip : ℕ
  pub off : ℕ
  pub major : ℕ

abbrev pub Table : Type 0
Table = ℕ → File

-- The loop of `filealloc` from `f`, with the rounds left.
unfoldable pub find_free : ℕ → ℕ → Table → Option ℕ
find_free zero f table = none
find_free (suc n) f table =
    let rest = find_free n (f + 1) table in if (table f).ref == 0 then some f else rest

-- With the file that was found; `none` is 0.
unfoldable pub alloc_found : Option ℕ → Table → Option ℕ × Table
alloc_found none table = (none, table)
alloc_found (some f) table = (some f, update table f (record (table f) { ref = 1 }))

unfoldable pub filealloc : Table → Option ℕ × Table
filealloc table = alloc_found (find_free nfile 0 table) table

-- `ref` is an int.
unfoldable pub filedup : ℕ → Table → Outcome Table ℕ
filedup f table =
    if ltb (table f).ref 1
    then panics
    else if leb (2 ^ 31) ((table f).ref + 1)
    then faults
    else returns f (update table f (record (table f) { ref = (table f).ref + 1 }))

-- What `fileclose` calls for a file that was closed for the last time.
pub data Release : Type 0 where
  nothing : Release
  pipeclose : (pipe : ℕ) → (writable : Bool) → Release
  iput : (ip : ℕ) → Release

unfoldable pub release : Kind → File → Release
release fd_none ff = nothing
release fd_pipe ff = pipeclose ff.pipe ff.writable
release fd_inode ff = iput ff.ip
release fd_device ff = iput ff.ip

unfoldable pub fileclose : ℕ → Table → Outcome Table Release
fileclose f table =
    let ff = table f in
    if ltb ff.ref 1
    then panics
    else if ltb 0 (ff.ref - 1)
    then returns nothing (update table f (record ff { ref = ff.ref - 1 }))
    else returns (release ff.type ff) (update table f (record ff { ref = 0; type = fd_none }))
