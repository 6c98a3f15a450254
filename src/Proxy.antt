-- ===== src/Proxy.antt =====
-- The web proxies: Assignment3/jwh139-concurrent-proxy/proxy.c and
-- Assignment2/jwh139-proxy/proxy.c.
pub mod Url
pub mod Request
pub mod Upstream
pub mod Relay
pub mod Tunnel
pub mod Log
pub mod Exchange
mod Tests
pub mod Thread
pub mod Child
pub mod Sequential
pub mod Concurrent
pub mod Handoff
