-- ===== src/Durable.antt =====
-- A member of a consumer group, python/oxbrook/_redis.py: `Consumer._absorb`, `_fill`, `__anext__` and
-- `close`, with what Redis answers as a parameter.
--
-- A message's data, decoded, is a number; whether the topic's model accepts it is a parameter. A call
-- that fails is redis-py's and leaves `_fill` at once.
pub mod Reading
pub mod Delivery
mod Tests
use oxbrook.Prelude.{
  ℕ, zero, suc, Bool, true, false, Option, none, some, List, [], ◌∷◌, ◌++◌, ◌==◌, if◌then◌else◌,
}

pub record Message : Type 0 where
  pub id : ℕ
  pub payload : ℕ

-- The data of an entry: a value, or one that the topic's model refuses.
pub data Field : Type 0 where
  decoded : ℕ → Field
  malformed : Field

-- An entry of a reply; one that was claimed and has been deleted has no fields.
pub record Entry : Type 0 where
  pub id : ℕ
  pub fields : Option Field

pub record Consumer : Type 0 where
  pub buffer : List Message
  pub recovering : Bool
  pub closed : Bool
  -- `if self.claim_after_ms`
  pub claims : Bool

unfoldable pub create : Bool → Consumer
create claims = record { buffer = []; recovering = true; closed = false; claims = claims }

-- What Redis answers during one `_fill`, where it is asked: this consumer's own pending entries, those
-- claimed from others, and new ones; entries come by stream.
pub record Replies : Type 0 where
  pub pending : List (List Entry)
  pub claimed : List Entry
  pub fresh : List (List Entry)

-- `_absorb`: the consumer, and how many messages it was given; none when `_decode` raised, which
-- ends the loop over the entries.
abbrev pub append : Message → Consumer → Consumer
append m c = record c { buffer = c.buffer ++ m ∷ [] }

abbrev pub count_one : Consumer × Option ℕ → Consumer × Option ℕ
count_one (c, none) = (c, none)
count_one (c, some n) = (c, some (suc n))

abbrev pub absorb_entry :
    ℕ → Option Field → (Consumer → Consumer × Option ℕ) → Consumer → Consumer × Option ℕ
absorb_entry id none rest c = rest c
absorb_entry id (some (decoded payload)) rest c =
    count_one (rest (append (record { id = id; payload = payload }) c))
absorb_entry id (some malformed) rest c = (c, none)

abbrev pub absorb : List Entry → Consumer → Consumer × Option ℕ
absorb [] c = (c, some 0)
absorb (e ∷ es) c = absorb_entry e.id e.fields (absorb es) c

-- How a part of `_fill` ends: it goes on, returns or raises.
pub data Stage : Type 0 where
  goes_on returns raised : Stage

-- The loop over the streams of the pending entries.
abbrev pub unless_any : Consumer × Option ℕ → (Consumer → Consumer × Stage) → Consumer × Stage
unless_any (c, none) rest = (c, raised)
unless_any (c, some zero) rest = rest c
unless_any (c, some (suc _)) rest = (c, returns)

abbrev pub absorb_first : List (List Entry) → Consumer → Consumer × Stage
absorb_first [] c = (c, goes_on)
absorb_first (es ∷ ess) c = unless_any (absorb es c) (absorb_first ess)

abbrev pub unless_raised : Consumer × Option ℕ → (Consumer → Consumer × Stage) → Consumer × Stage
unless_raised (c, none) rest = (c, raised)
unless_raised (c, some _) rest = rest c

abbrev pub absorb_each : List (List Entry) → Consumer → Consumer × Stage
absorb_each [] c = (c, returns)
absorb_each (es ∷ ess) c = unless_raised (absorb es c) (absorb_each ess)

abbrev pub then_fill : Consumer × Stage → (Consumer → Consumer × Stage) → Consumer × Stage
then_fill (c, goes_on) rest = rest c
then_fill (c, returns) rest = (c, returns)
then_fill (c, raised) rest = (c, raised)

abbrev pub recover : List (List Entry) → Bool → Consumer → Consumer × Stage
recover pending false c = (c, goes_on)
recover pending true c = absorb_first pending c

abbrev pub claim : List Entry → Bool → Consumer → Consumer × Stage
claim claimed false c = (c, goes_on)
claim claimed true c = unless_any (absorb claimed c) (λ c. (c, goes_on))

unfoldable pub fill : Replies → Consumer → Consumer × Stage
fill r c = then_fill (recover r.pending c.recovering c) (λ c.
    then_fill (claim r.claimed c.claims (record c { recovering = false }))
      (λ c. absorb_each r.fresh c))

-- `__anext__`: a message, the end, an exception, or waiting for Redis when its answers so far gave nothing.
pub data Next : Type 0 where
  hands : Message → Next
  stops waits raises : Next

-- After a `_fill` the loop goes on, or its exception leaves `__anext__`.
abbrev pub after_fill : Consumer × Stage → (Consumer → Consumer × Next) → Consumer × Next
after_fill (c, goes_on) rest = rest c
after_fill (c, returns) rest = rest c
after_fill (c, raised) rest = (c, raises)

abbrev pub take_from : List Message → Consumer → (Consumer → Consumer × Next) → Consumer × Next
take_from [] c rest = rest c
take_from (m ∷ buffer) c rest = (record c { buffer = buffer }, hands m)

unfoldable pub next : List Replies → Consumer → Consumer × Next
next [] c = take_from c.buffer c (λ c. (c, if c.closed then stops else waits))
next (r ∷ rs) c =
    take_from c.buffer c (λ c. if c.closed then (c, stops) else after_fill (fill r c) (next rs))

unfoldable pub close : Consumer → Consumer
close c = record c { closed = true }
