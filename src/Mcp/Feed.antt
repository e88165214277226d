-- ===== src/Mcp/Feed.antt =====
-- `Feed`, and `_pump` of the endpoint, python/oxbrook/_mcp.py: what a topic sent to a session that
-- follows it, until the client reads it.
use oxbrook.Prelude.{ℕ, Bool, true, false, List, [], ◌∷◌, ◌++◌, ◌-◌, length, drop, if◌then◌else◌}

pub record Feed {ℓ} (A : Type ℓ) : Type ℓ where
  pub size : ℕ
  pub buffer : List A
  pub notified : Bool
  pub is_open : Bool

module _ {ℓ} {A : Type ℓ} where
  unfoldable pub open_feed : ℕ → Feed A
  open_feed size = record { size = size; buffer = []; notified = false; is_open = true }

  -- `append` of a `deque(maxlen=size)`: a full one loses its oldest item.
  abbrev pub keep_last : ℕ → List A → List A
  keep_last size xs = drop (length xs - size) xs

  -- One turn of `_pump`: the new feed, and whether a notification is posted.
  unfoldable pub pump : A → Feed A → Feed A × Bool
  pump item f =
      let g = record f { buffer = keep_last f.size (f.buffer ++ item ∷ []) } in
      if f.notified then (g, false) else (record g { notified = true }, true)

  unfoldable pub take : Feed A → List A × Feed A
  take f = (f.buffer, record f { buffer = []; notified = false })

  unfoldable pub close_feed : Feed A → Feed A
  close_feed f = record f { is_open = false }
