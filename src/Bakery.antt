-- ===== src/Bakery.antt =====
-- Concurrent-Bakery-Sim/main.c: chefs and customers around two bounded queues and two semaphores.
pub mod Queue
pub mod Shop
mod Tests
