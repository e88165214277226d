-- ===== src/Login.antt =====
-- Logging in through a provider, python/oxbrook/_login.py: `_local`, `_pending`, `OAuthLogin._target`,
-- `_begin`, `_finish`, `_exchange` and `_identify`, on the session of one browser and with providers of
-- OpenID.
--
-- States, verifiers, nonces, codes, issuers and URLs are numbers; times are seconds. What the
-- providers answer, what their ID tokens verify to, and the application's `on_login` are parameters.
-- A target is a text.
pub mod Begin
pub mod Finish
pub mod Limit
pub mod Targets
pub mod Callbacks
pub mod Landing
mod Tests
