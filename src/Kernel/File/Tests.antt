-- ===== src/Kernel/File/Tests.antt =====
-- kernel/file.c: a table in which file 0, a pipe, is held twice.
use os_network_concurrency_s.Common.{◌≡◌, ◌≢◌, ◌==◌, if◌then◌else◌, true, false, [], ◌∷◌, arith}
use os_network_concurrency_s.Common.Outcome.{returns}
use os_network_concurrency_s.Kernel.File.{fd_pipe, Table, fileclose, Release, nothing}
use os_network_concurrency_s.Kernel.File.Counts.{count, Counts, fileclose-Counts}

abbrev shared_pipe : Table
shared_pipe i = record {
  type = fd_pipe;
  ref = if 0 == i then 2 else 0;
  readable = true;
  writable = false;
  pipe = 7;
  ip = 0;
  off = 0;
  major = 0;
}

shared_pipe-Counts : Counts shared_pipe (0 ∷ 0 ∷ [])
shared_pipe-Counts f lt = ground arith

fileclose-Counts_example :
    (r : Release) × ((t : Table) × ((fileclose 0 shared_pipe ≡ returns r t)
        × (Counts t (0 ∷ []) × (r ≢ nothing → count 0 (0 ∷ []) ≡ 0))))
fileclose-Counts_example = fileclose-Counts 0 shared_pipe (0 ∷ []) (omega arith) shared_pipe-Counts
