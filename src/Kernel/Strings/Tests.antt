-- ===== src/Kernel/Strings/Tests.antt =====
-- kernel/string.c: the functions on the letters of a small memory.
use os_network_concurrency_s.Common.{◌+◌, ◌-◌, ◌≡◌, ◌↔◌, ltb, leb, if◌then◌else◌, ◌&&◌}
use os_network_concurrency_s.Kernel.Strings.{Bytes, pos, strncmp, memmove}
use os_network_concurrency_s.Kernel.Strings.Moves.{memmove-copied}
use os_network_concurrency_s.Kernel.Strings.Compare.{string_at, strncmp-string_at}

-- `abcd` at 100.
abbrev letters : Bytes
letters a = if leb 100 a && ltb a 104 then a - 100 + b'a' else 0

memmove-copied_example : memmove 102 100 4 letters 105 ≡ b'd'
memmove-copied_example = memmove-copied 102 100 4 letters 105

strncmp-string_at_example :
    (strncmp 103 100 5 letters ≡ pos 0) ↔ (string_at 103 5 letters ≡ string_at 100 5 letters)
strncmp-string_at_example = strncmp-string_at 103 100 5 letters
