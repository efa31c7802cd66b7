-- ===== src/Bakery/Queue.antt =====
-- Concurrent-Bakery-Sim/main.c: the ring of at most QUEUE_MAX events. An event is the number of its
-- customer. Each function holds the mutex of the queue throughout, so it is one atomic step.
pub mod Fifo
use os_network_concurrency_s.Common.{
  ℕ, ◌+◌, ◌-◌, ◌%◌, Option, none, some, ltb, if◌then◌else◌, update, Bool, true, false,
}

abbrev pub queue_max : ℕ
queue_max = 25

pub record Queue : Type 0 where
  pub slots : ℕ → ℕ
  pub head : ℕ
  pub tail : ℕ
  pub count : ℕ

unfoldable pub my_init : Queue → Queue
my_init q = record q { head = 0; tail = 0; count = 0 }

-- The answer 1 is `true`, and -1 `false`.
unfoldable pub my_enqueue : Queue → ℕ → Bool × Queue
my_enqueue q current =
    if ltb q.count queue_max
    then (
      true,
      record q {
        slots = update q.slots q.tail current;
        tail = (q.tail + 1) % queue_max;
        count = q.count + 1;
      },
    )
    else (false, q)

-- NULL is `none`.
unfoldable pub my_dequeue : Queue → Option ℕ × Queue
my_dequeue q =
    if ltb 0 q.count
    then (some (q.slots q.head), record q { head = (q.head + 1) % queue_max; count = q.count - 1 })
    else (none, q)

unfoldable pub get_count : Queue → ℕ
get_count q = q.count
