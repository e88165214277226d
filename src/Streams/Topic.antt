-- ===== src/Streams/Topic.antt =====
-- `Topic` of python/oxbrook/_streams.py: fan-out to the local subscribers.
--
-- A subscription is known by a number, its identity. A call walks a snapshot of the subscribers in
-- order; a `TopicFull` from one ends the walk, and leaves those after it as they were.
use oxbrook.Prelude.{
  ℕ, suc, ◌+◌, Bool, true, false, not, ◌&&◌, ◌||◌, Option, none, some, List, [], ◌∷◌, ◌++◌, ◌==◌,
  if◌then◌else◌, Result, ok, raise, ◌>>◌, require, value_error, runtime_error, ltb,
}
use oxbrook.Streams.Position.{Position}
use oxbrook.Streams.Subscription.{Policy, Subscription, Since, absent, init, try_offer, close}

pub record Topic {ℓ} (A : Type ℓ) : Type ℓ where
  pub maxsize : ℕ
  pub policy : Policy
  pub durable : Bool
  pub subs : List (ℕ × Subscription A)
  -- whether the tail task is started, and `_live`
  pub tail : Bool
  pub live : Bool

-- How the loop of `emit` ends: every subscriber counted, or at the one whose `_offer` it awaits.
pub data Emitted : Type 0 where
  counted : ℕ → Emitted
  suspended : ℕ → Emitted

abbrev pub is_resuming : Since → Bool
is_resuming absent = false
is_resuming _ = true

module _ {ℓ} {A : Type ℓ} where
  unfoldable pub create : ℕ → Policy → Bool → Result (Topic A)
  create maxsize policy durable = do
    require (ltb 0 maxsize) value_error
    ok (record {
      maxsize = maxsize;
      policy = policy;
      durable = durable;
      subs = [];
      tail = false;
      live = false;
    })

  -- `maxsize or self.maxsize`: absent and 0 alike stand for the topic's own.
  abbrev size_of : Option ℕ → Topic A → ℕ
  size_of none t = t.maxsize
  size_of (some n) t = if n == 0 then t.maxsize else n

  abbrev policy_of : Option Policy → Topic A → Policy
  policy_of none t = t.policy
  policy_of (some p) t = p

  unfoldable pub subscribe :
      ℕ → Option ℕ → Option Policy → Since → Topic A → Result (Topic A × Subscription A)
  subscribe handle maxsize policy since t = do
    require (not (is_resuming since) || t.durable) runtime_error
    let sub = init (size_of maxsize t) (policy_of policy t) since
    ok (record t { subs = t.subs ++ (handle, sub) ∷ []; tail = t.tail || t.durable }, sub)

  remove_from : ℕ → List (ℕ × Subscription A) → List (ℕ × Subscription A)
  remove_from handle [] = []
  remove_from handle ((h, sub) ∷ subs) =
      if h == handle then subs else (h, sub) ∷ remove_from handle subs

  unfoldable pub remove : ℕ → Topic A → Topic A
  unfolding remove_from
  remove handle t = record t { subs = remove_from handle t.subs }

  -- `if not sub._try_offer(...): sub.dropped += 1`
  abbrev pub drop_refused : Subscription A × Result Bool → Subscription A × Result (Unit {0})
  drop_refused (sub, ok true) = (sub, ok tt)
  drop_refused (sub, ok false) = (record sub { dropped = sub.dropped + 1 }, ok tt)
  drop_refused (sub, raise e) = (sub, raise e)

  -- The rest of a walk, after one subscriber: the states, and how many were counted.
  abbrev pub walk_on :
      ℕ
      → Subscription A × Result (Unit {0})
      → List (ℕ × Subscription A)
      → List (ℕ × Subscription A) × Result ℕ
      → List (ℕ × Subscription A) × Result ℕ
  walk_on h (sub, raise e) subs rest = ((h, sub) ∷ subs, raise e)
  walk_on h (sub, ok _) subs (subs', ok n) = ((h, sub) ∷ subs', ok (suc n))
  walk_on h (sub, ok _) subs (subs', raise e) = ((h, sub) ∷ subs', raise e)

  -- The loop of `emit_nowait`.
  unfoldable pub emit_each : A → List (ℕ × Subscription A) → List (ℕ × Subscription A) × Result ℕ
  emit_each item [] = ([], ok 0)
  emit_each item ((h, sub) ∷ subs) =
      let rest = emit_each item subs in walk_on h (drop_refused (try_offer item none sub)) subs rest

  abbrev with_subs : Topic A → List (ℕ × Subscription A) × Result ℕ → Topic A × Result ℕ
  with_subs t (subs, r) = (record t { subs = subs }, r)

  unfoldable pub emit_nowait : A → Topic A → Topic A × Result ℕ
  unfolding emit_each
  emit_nowait item t =
      if t.durable then (t, raise runtime_error) else with_subs t (emit_each item t.subs)

  -- The loop of `_fan_out`: this node's own entries go only to subscribers opened with `since`.
  abbrev skip :
      ℕ × Subscription A
      → List (ℕ × Subscription A) × Result ℕ
      → List (ℕ × Subscription A) × Result ℕ
  skip s (subs, r) = (s ∷ subs, r)

  unfoldable pub fan_each :
      A → Position → Bool → List (ℕ × Subscription A) → List (ℕ × Subscription A) × Result ℕ
  fan_each item ident own [] = ([], ok 0)
  fan_each item ident own ((h, sub) ∷ subs) =
      let rest = fan_each item ident own subs in
      if own && not sub.ids
      then skip (h, sub) rest
      else walk_on h (drop_refused (try_offer item (some ident) sub)) subs rest

  unfoldable pub fan_out : A → Position → Bool → Topic A → Topic A × Result ℕ
  unfolding fan_each
  fan_out item ident own t = with_subs t (fan_each item ident own t.subs)

  -- The local loop of `emit`, up to the first `_offer` that it must await: a `block` subscriber that
  -- is full suspends it, with the handle of that subscriber. Those opened with `since` are counted
  -- and fed by the tail.
  abbrev emit_on :
      ℕ
      → Subscription A × Result Bool
      → List (ℕ × Subscription A)
      → List (ℕ × Subscription A) × Result Emitted
      → List (ℕ × Subscription A) × Result Emitted
  emit_on h (sub, ok true) subs (subs', ok (counted n)) = ((h, sub) ∷ subs', ok (counted (suc n)))
  emit_on h (sub, ok true) subs (subs', r) = ((h, sub) ∷ subs', r)
  emit_on h (sub, ok false) subs rest = ((h, sub) ∷ subs, ok (suspended h))
  emit_on h (sub, raise e) subs rest = ((h, sub) ∷ subs, raise e)

  unfoldable pub emit_local :
      A → List (ℕ × Subscription A) → List (ℕ × Subscription A) × Result Emitted
  emit_local item [] = ([], ok (counted 0))
  emit_local item ((h, sub) ∷ subs) =
      let rest = emit_local item subs in
      emit_on h (if sub.ids then (sub, ok true) else try_offer item none sub) subs rest

  -- `close`: every subscription is closed and removes itself, and the tail stops.
  close_each : List (ℕ × Subscription A) → List (ℕ × Subscription A)
  close_each [] = []
  close_each ((h, sub) ∷ subs) = (h, close sub) ∷ close_each subs

  -- The topic after `close`, and the closed subscriptions, which their readers still hold.
  unfoldable pub close_topic : Topic A → Topic A × List (ℕ × Subscription A)
  unfolding close_each
  close_topic t = (record t { subs = []; tail = false; live = false }, close_each t.subs)
