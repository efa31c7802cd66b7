-- ===== src/Kernel/Console/Tests.antt =====
-- kernel/console.c: a console whose indices have just wrapped, with a line and two more letters.
use os_network_concurrency_s.Common.{
  ℕ, ◌-◌, ◌^◌, ◌≡◌, ◌==◌, if◌then◌else◌, true, false, arith, refl, List, ◌++◌,
}
use os_network_concurrency_s.Kernel.Console.{
  Cons, control, consoleintr, consoleread, consoleread_from, kill_line, kill_from, returned,
}
use os_network_concurrency_s.Kernel.Console.Window.{IsValid, committed}
use os_network_concurrency_s.Kernel.Console.Lines.{consoleintr-Keeps}
use os_network_concurrency_s.Kernel.Console.Reads.{Consumed, consoleread-Consumed}

abbrev typed : Cons
typed = record {
  buf = λ i. if i == 127 then b'h' else if i == 0 then b'i' else if i == 1 then b'\n' else b'x';
  r = 2 ^ 32 - 1;
  w = 2;
  e = 4;
}

typed-IsValid : IsValid typed
typed-IsValid = record {
  words = (omega arith, (omega arith, omega arith));
  ordered = omega arith;
  bounded = omega arith;
}

consoleintr-Keeps_example :
    IsValid (consoleintr b'\r' typed)
    × ((rest : List ℕ) × (committed (consoleintr b'\r' typed) ≡ committed typed ++ rest))
consoleintr-Keeps_example = consoleintr-Keeps b'\r' typed typed-IsValid

consoleread-Consumed_example : Consumed 10 0 typed (consoleread 10 (λ i c. true) false typed)
consoleread-Consumed_example = consoleread-Consumed (λ i c. true) false 10 typed typed-IsValid

-- The line is read whole; a kill erases only what follows it.
read_line : consoleread 10 (λ i c. true) false typed ≡ (returned 3, record typed { r = 2 })
unfolding consoleread consoleread_from
read_line = refl

killed_line : (consoleintr (control b'U') typed).e ≡ 2
unfolding consoleintr kill_line kill_from
killed_line = refl
