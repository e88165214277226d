-- ===== src/Streams/Resume.antt =====
-- A subscription resumed from a position, with the stream it replays and the tail that feeds it:
-- `Subscription._replayed`, `__anext__`, `_try_offer` and `Topic._pump` of
-- python/oxbrook/_streams.py, as the steps of one system in any interleaving.
--
-- The stream is Redis's, so it is a list that grows at its end by ids that rise, and `history`
-- returns any first part of what is newer than a position, empty only if nothing is. The tail is
-- what it still has to deliver, from the moment its position is fixed. Two things are left out: a
-- delivery to a full buffer, where the policy drops by design, and a close in the middle.
pub mod Invariant
pub mod Steps
pub mod Delivery
pub mod Feeding
pub mod Reading
pub mod Live
pub mod Once
