-- ===== src/Observability.antt =====
-- observability.py: the rate limiter, the daily token budget and the latency histogram. The floats
-- are exact numbers here: an instant is a number of ticks, and a bucket's level is counted in parts
-- of a token, so that a tick adds a whole number of parts.
pub mod Bucket
pub mod Budgets
pub mod Histogram
mod Tests
