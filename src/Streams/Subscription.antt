-- ===== src/Streams/Subscription.antt =====
-- `Subscription` of python/oxbrook/_streams.py: the buffer, its overflow policies and its reader.
--
-- A method is one atomic step under the subscription's lock, and returns the new state beside its
-- outcome; where the method awaits, each stretch between two awaits is a step of its own. A future
-- is a number. `woken` records the futures handed to `call_soon_threadsafe(_resolve, ...)`.
use oxbrook.Prelude.{
  ℕ, ◌+◌, Bool, true, false, Option, none, some, List, [], ◌∷◌, ◌++◌, length, leb, ltb,
  if◌then◌else◌, Result, ok, raise, topic_full, attribute_error, index_error,
}
use oxbrook.Streams.Position.{Position, position_le}

pub data Policy : Type 0 where
  drop_oldest drop_newest block error : Policy

-- What a buffer holds: a bare value, or a `Message` with the stream id that it was given.
pub data Item {ℓ} (A : Type ℓ) : Type ℓ where
  bare : A → Item A
  message : Option Position → A → Item A

pub record Subscription {ℓ} (A : Type ℓ) : Type ℓ where
  pub maxsize : ℕ
  pub policy : Policy
  pub dropped : ℕ
  pub buffer : List (Item A)
  pub getter : Option ℕ
  pub putters : List ℕ
  pub closed : Bool
  pub ids : Bool
  pub after : Option Position
  pub backlog : List (Position × A)
  pub replaying : Bool
  pub woken : List ℕ

-- The `since` argument, as `_since` leaves it: absent, "$", or a full id.
pub data Since : Type 0 where
  absent from_now : Since
  past : Position → Since

-- What `_offer` does next: it is over, or it awaits a future.
pub data Offer : Type 0 where
  over : Offer
  awaits : ℕ → Offer

abbrev pub wake : Option ℕ → List ℕ
wake none = []
wake (some f) = f ∷ []

module _ {ℓ} {A : Type ℓ} where
  -- `_position(item.id)`; `none` is its `AttributeError`.
  abbrev pub item_position : Item A → Option Position
  item_position (bare _) = none
  item_position (message p _) = p

  unfoldable pub init : ℕ → Policy → Since → Subscription A
  init maxsize policy since = record {
    maxsize = maxsize;
    policy = policy;
    dropped = 0;
    buffer = [];
    getter = none;
    putters = [];
    closed = false;
    ids = elim since [ absent ↦ false | from_now ↦ true | past _ ↦ true ];
    after = elim since [ absent ↦ none | from_now ↦ none | past p ↦ some p ];
    backlog = [];
    replaying = elim since [ absent ↦ false | from_now ↦ false | past _ ↦ true ];
    woken = [];
  }

  unfoldable pub pending : Subscription A → ℕ
  pending s = length s.buffer

  -- `self._buffer.append(item)`, after which the waiting reader is taken and woken
  append : Item A → Subscription A → Subscription A
  append item s = record s {
    buffer = s.buffer ++ item ∷ [];
    getter = none;
    woken = s.woken ++ wake s.getter;
  }

  -- `popleft` on the full buffer, under `drop_oldest`
  evict : List (Item A) → Item A → Subscription A → Subscription A × Result Bool
  unfolding append
  evict [] item s = (s, raise index_error)
  evict (_ ∷ rest) item s =
      (append item (record s { buffer = rest; dropped = s.dropped + 1 }), ok true)

  -- `_put` on a full buffer
  unfoldable pub overflow : Policy → Item A → Subscription A → Subscription A × Result Bool
  unfolding evict
  overflow drop_newest item s = (record s { dropped = s.dropped + 1 }, ok true)
  overflow drop_oldest item s = evict s.buffer item s
  overflow error item s = (s, raise topic_full)
  overflow block item s = (s, ok false)

  -- `ok false` tells the caller to await `_offer` instead
  unfoldable pub put : Item A → Subscription A → Subscription A × Result Bool
  unfolding append overflow
  put item s =
      if s.closed
      then (s, ok true)
      else if leb s.maxsize (length s.buffer)
      then overflow s.policy item s
      else (append item s, ok true)

  -- The copy of an entry that the replay has given is not put; without an id the comparison raises.
  unfoldable pub offer_after :
      Option Position → Option Position → A → Subscription A → Subscription A × Result Bool
  unfolding put
  offer_after none ident item s = put (message ident item) s
  offer_after (some after) none item s = (s, raise attribute_error)
  offer_after (some after) (some p) item s =
      if position_le p after then (s, ok true) else put (message (some p) item) s

  unfoldable pub try_offer : A → Option Position → Subscription A → Subscription A × Result Bool
  unfolding put offer_after
  try_offer item ident s = if s.ids then offer_after s.after ident item s else put (bare item) s

  -- One round of the loop of `_offer`: what runs between two awaits.
  unfoldable pub offer_round : ℕ → A → Subscription A → Subscription A × Offer
  unfolding append
  offer_round fresh item s =
      if s.closed
      then (s, over)
      else if ltb (length s.buffer) s.maxsize
      then (append (bare item) s, over)
      else (record s { putters = s.putters ++ fresh ∷ [] }, awaits fresh)

  unfoldable pub close : Subscription A → Subscription A
  close s = if s.closed then s else record s {
    closed = true;
    getter = none;
    putters = [];
    woken = s.woken ++ (wake s.getter ++ s.putters);
  }
