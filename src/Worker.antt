-- ===== src/Worker.antt =====
-- A worker process of the gateway, include/pool.h: the clients that it serves, the events that it
-- keeps for them in two queues, and the servers that it forwards to. What the operating system,
-- libevent and jsoncpp decide comes in as arguments: the time, the address that `MemoryPoolAlloc`
-- returns, the socket that is accepted, what a packet parses to and prints as.
pub mod State
pub mod Backends
pub mod Clients
pub mod Requests
pub mod Timeouts
pub mod Invariant
pub mod Safety
pub mod Reading
pub mod Traces
pub mod Exchange
pub mod Examples
mod Tests
