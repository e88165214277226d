-- ===== src/Oidc.antt =====
-- The signing keys of an OpenID provider, python/oxbrook/_jwks.py: which of them are kept, when they
-- are fetched, and with which algorithm one may be used.
--
-- Algorithms, key types, curves, key ids and URLs are numbers; the algorithms of `COMPATIBLE` are 0 to
-- 10 in its order. HTTP, JSON and PyJWT's reading of a key are parameters.
pub mod Keys
pub mod KeySet
pub mod Fit
pub mod Safety
pub mod Calls
pub mod Paid
pub mod Rate
pub mod Kept
pub mod Trust
mod Tests
