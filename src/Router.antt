-- ===== src/Router.antt =====
-- The request router (src/request_router.rs): a client-side limiter that every provider call goes
-- through, with permits per origin and overall, a cooldown per origin, and one retry.
pub mod Delay
pub mod Latency
pub mod Body
pub mod State
pub mod Send
