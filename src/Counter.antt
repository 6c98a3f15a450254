-- ===== src/Counter.antt =====
-- Lecture8/mutex and Lecture8/non_mutex: two threads that count to 500 each in one counter, with a mutex
-- (Locked) and without (Unlocked).
pub mod Locked
pub mod Unlocked
mod Tests
