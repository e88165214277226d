-- ===== src/Mcp/Calls.antt =====
-- The calls that reach the registry of sessions, and runs of them.
use oxbrook.Prelude.{ℕ, ◌≡◌, List, [], ◌∷◌, Result, ok, raise, Text, arith}
use oxbrook.Mcp.Session.{Session, outbound, post, follow, unfollow, arrive, read}
use oxbrook.Mcp.Registry.{Sessions, sweep, create_session, get, drop_session, close_all, adjust}

-- What a handler does to a session that it holds.
pub data Act {ℓ} (A : Type ℓ) : Type ℓ where
  do_outbound : Act A
  do_post : A → Act A
  do_follow : Text → Act A
  do_unfollow : Text → Act A
  do_arrive : Text → A → A → Act A
  do_read : Text → Act A

pub data Call {ℓ} (A : Type ℓ) : Type ℓ where
  do_create : Text → Text → Call A
  do_get : Text → Call A
  do_drop : Text → Call A
  do_sweep : Call A
  do_close : Call A
  do_act : Text → Act A → Call A

module _ {ℓ} {A : Type ℓ} where
  abbrev opened_or : Session A → Result (Session A) → Session A
  opened_or s (ok t) = t
  opened_or s (raise _) = s

  abbrev pub act : Act A → Session A → Session A
  act do_outbound s = opened_or s (outbound s)
  act (do_post m) s = (post m s).0
  act (do_follow uri) s = follow uri s
  act (do_unfollow uri) s = (unfollow uri s).0
  act (do_arrive uri notice item) s = (arrive uri notice item s).0
  act (do_read uri) s = (read uri s).0

  abbrev pub step : ℕ → Call A → Sessions A → Sessions A
  step now (do_create fresh version) r = (create_session fresh version now r).0
  step now (do_get sid) r = (get sid now r).0
  step now (do_drop sid) r = (drop_session sid r).0
  step now do_sweep r = (sweep now r).0
  step now do_close r = (close_all r).0
  step now (do_act sid a) r = adjust sid (act a) r

  -- Calls, each at its time.
  unfoldable pub run : List (ℕ × Call A) → Sessions A → Sessions A
  run [] r = r
  run ((now, c) ∷ cs) r = run cs (step now c r)

  -- An act changes neither the id nor the time of last use.
  pub act-fields :
      (a : Act A) (s : Session A) → ((act a s).id ≡ s.id) × ((act a s).touched ≡ s.touched)
  unfolding outbound post follow unfollow arrive read
  act-fields do_outbound s = ground arith
  act-fields (do_post m) s = ground arith
  act-fields (do_follow uri) s = ground arith
  act-fields (do_unfollow uri) s = ground arith
  act-fields (do_arrive uri notice item) s = ground arith
  act-fields (do_read uri) s = ground arith
