-- ===== src/Worker/Safety.antt =====
-- No callback of a worker, include/pool.h, touches an event that was freed or frees one twice.
pub mod Accept
pub mod Limits
pub mod Keep
pub mod Packet
pub mod Turn
pub mod Reply
pub mod Expiry
pub mod Resend
pub mod Retry
pub mod TimeOut
