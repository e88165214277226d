-- ===== src/Mcp/Session.antt =====
-- `Session` of python/oxbrook/_mcp.py, and what `subscribe`, `unsubscribe`, `_pump` and
-- `read_resource` do to one. A message, like an item of a topic, is a value of the parameter.
use oxbrook.Prelude.{
  ℕ, Bool, true, false, Option, none, some, List, [], ◌∷◌, length, ltb, if◌then◌else◌, Result, ok,
  ◌>>=◌, Text, text_eq,
}
use oxbrook.Streams.Subscription.{Subscription, drop_oldest}
use oxbrook.Streams.Topic.{Topic, create, emit_nowait, close_topic}
use oxbrook.Mcp.Feed.{Feed, open_feed, pump, take, close_feed}

pub record Session {ℓ} (A : Type ℓ) : Type ℓ where
  pub id : Text
  pub version : Text
  pub touched : ℕ
  pub channel : Option (Topic A)
  -- by the URI of the topic
  pub feeds : List (Text × Feed A)

-- What `close` gives up: the closed feeds, the closed channel and its closed subscriptions.
pub record Released {ℓ} (A : Type ℓ) : Type ℓ where
  pub feeds : List (Text × Feed A)
  pub channel : Option (Topic A × List (ℕ × Subscription A))

abbrev pub default_maxsize : ℕ
default_maxsize = 1024

abbrev pub feed_buffer : ℕ
feed_buffer = 256

module _ {ℓ} {A : Type ℓ} where
  unfoldable pub open_session : Text → Text → ℕ → Session A
  open_session id version now = record {
    id = id;
    version = version;
    touched = now;
    channel = none;
    feeds = [];
  }

  unfoldable pub outbound : Session A → Result (Session A)
  outbound s = elim s.channel [
    | some _ ↦ ok s
    | none ↦ do t ← create default_maxsize drop_oldest false; ok (record s { channel = some t })
  ]

  abbrev pub has_subscribers : Option (Topic A) → Bool
  has_subscribers none = false
  has_subscribers (some t) = ltb 0 (length t.subs)

  unfoldable pub listening : Session A → Bool
  listening s = has_subscribers s.channel

  with_channel : Session A → Topic A × Result ℕ → Session A × Result ℕ
  with_channel s (t, r) = (record s { channel = some t }, r)

  unfoldable pub post : A → Session A → Session A × Result ℕ
  unfolding with_channel
  post m s = elim s.channel [ none ↦ (s, ok 0) | some t ↦ with_channel s (emit_nowait m t) ]

  close_feeds : List (Text × Feed A) → List (Text × Feed A)
  close_feeds [] = []
  close_feeds ((uri, f) ∷ fs) = (uri, close_feed f) ∷ close_feeds fs

  abbrev close_channel : Option (Topic A) → Option (Topic A × List (ℕ × Subscription A))
  close_channel none = none
  close_channel (some t) = some (close_topic t)

  unfoldable pub close_session : Session A → Session A × Released A
  unfolding close_feeds
  close_session s = (
    record s { channel = none; feeds = [] },
    record { feeds = close_feeds s.feeds; channel = close_channel s.channel },
  )

  abbrev pub feed_of : Text → List (Text × Feed A) → Option (Feed A)
  feed_of uri [] = none
  feed_of uri ((u, f) ∷ fs) = if text_eq u uri then some f else feed_of uri fs

  abbrev pub set_feed : Text → Feed A → List (Text × Feed A) → List (Text × Feed A)
  set_feed uri g [] = (uri, g) ∷ []
  set_feed uri g ((u, f) ∷ fs) = if text_eq u uri then (u, g) ∷ fs else (u, f) ∷ set_feed uri g fs

  abbrev pub pop_feed : Text → List (Text × Feed A) → List (Text × Feed A)
  pop_feed uri [] = []
  pop_feed uri ((u, f) ∷ fs) = if text_eq u uri then fs else (u, f) ∷ pop_feed uri fs

  -- `subscribe`, once the topic is found
  unfoldable pub follow : Text → Session A → Session A
  follow uri s = elim (feed_of uri s.feeds) [
    | some _ ↦ s
    | none ↦ record s { feeds = set_feed uri (open_feed feed_buffer) s.feeds }
  ]

  -- `unsubscribe`, with the feed that it closes
  unfoldable pub unfollow : Text → Session A → Session A × Option (Feed A)
  unfollow uri s = elim (feed_of uri s.feeds) [
    | none ↦ (s, none)
    | some f ↦ (record s { feeds = pop_feed uri s.feeds }, some (close_feed f))
  ]

  -- A turn of `_pump` on the session's feed of a topic; `notice` is the notification that it posts.
  abbrev notify : Bool → A → Session A → Session A × Result ℕ
  notify true notice s = post notice s
  notify false notice s = (s, ok 0)

  unfoldable pub arrive : Text → A → A → Session A → Session A × Result ℕ
  arrive uri notice item s = elim (feed_of uri s.feeds) [
    | none ↦ (s, ok 0)
    | some f ↦
        let turn = pump item f in
        notify turn.1 notice (record s { feeds = set_feed uri turn.0 s.feeds })
  ]

  -- `read_resource` where the session follows the topic
  unfoldable pub read : Text → Session A → Session A × Option (List A)
  read uri s = elim (feed_of uri s.feeds) [
    | none ↦ (s, none)
    | some f ↦
        let taken = take f in (record s { feeds = set_feed uri taken.1 s.feeds }, some taken.0)
  ]
