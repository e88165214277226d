-- ===== src/Streams.antt =====
-- Topics and subscriptions, python/oxbrook/_streams.py.
pub mod Position
pub mod Subscription
pub mod Reader
pub mod Delivery
pub mod FanOut
pub mod Topic
pub mod Resume
mod Tests
pub mod Log
pub mod Runs
pub mod Order
pub mod Invariant
