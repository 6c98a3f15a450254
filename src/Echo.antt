-- ===== src/Echo.antt =====
-- Lecture10: UDP servers that send each datagram back, and their clients, in four ways to wait for at
-- most five seconds.
pub mod Server
pub mod Client
pub mod RoundTrip
mod Tests
