-- ===== src/RateLimiter.antt =====
-- src/lib/rate-limiter.ts: the budgets of the Govee cloud and the queue of calls that wait for them.
pub mod Bucket
pub mod State
pub mod Ledger
pub mod Queue
pub mod Loop
pub mod Within
pub mod Sorted
pub mod Events
pub mod Sound
pub mod Meter
pub mod Tracked
