-- ===== src/Auth.antt =====
-- Authentication, python/oxbrook/_auth.py and auth.py: what an `auth=` declaration means, the gate
-- that enforces it, what listings show, and the credentials that are remembered or used once.
--
-- A scheme is known by a number, its identity; so is a function given as `check=`. A name, of a
-- scheme, a scope or a role, is a number too, and a frozenset is its sorted list.
pub mod Policy
pub mod Gate
pub mod Meaning
pub mod Ways
pub mod Refinement
pub mod Listing
pub mod Spending
pub mod Session
pub mod Credentials
pub mod Claims
pub mod Algorithms
pub mod Forgery
pub mod Tokens
pub mod Remembering
pub mod Tickets
pub mod Redeeming
pub mod InTime
pub mod Room
mod Tests
mod ForgeryTests
