-- ===== src/Oidc/Kept.antt =====
-- What `KeySet.find` does to the keys in hand.
use oxbrook.Prelude.{
  ℕ, ◌-◌, ◌≡◌, refl, ◌∙◌, Bool, true, false, ◌&&◌, Option, none, some, is_some, ltb, if◌then◌else◌,
  is_in,
}
use oxbrook.Oidc.Keys.{Keys, Entry, pick}
use oxbrook.Oidc.KeySet.{
  KeySet, start, start_if, is_recent, retry_interval, refetch_interval, refresh_if_stale,
  has_failed, Found, waits_for_keys, after_start, after_refetch, picked, if_accepted, with_keys,
  find_from,
}

-- Starting a fetch leaves the keys.
pub start-keys : (now spacing : ℕ) (s : KeySet) → (start now spacing s).0.keys ≡ s.keys
unfolding start
start-keys now spacing s = go s.fetching (is_recent now spacing s.attempted)
  where
    go : (f r : Bool) → (start_if now f r s).0.keys ≡ s.keys
    go true r = refl
    go false true = refl
    go false false = refl

refresh-keys : (now : ℕ) (s : KeySet) → (refresh_if_stale now s).keys ≡ s.keys
unfolding refresh_if_stale
refresh-keys now s = go (is_some s.keys && ltb s.max_age (now - s.fetched))
  where
    spacing : ℕ
    spacing = if has_failed s.attempted s.fetched then retry_interval else 0

    go : (b : Bool) → (if b then (start now spacing s).0 else s).keys ≡ s.keys
    go true = start-keys now spacing s
    go false = refl

picked-keys :
    (now : ℕ) (kid : Option ℕ) (alg : ℕ) (o : Option Entry) (s : KeySet)
    → (picked now kid alg o s).0.keys ≡ s.keys
picked-keys now kid alg (some e) s = refl
picked-keys now none alg none s = refl
picked-keys now (some kid) alg none s =
    go (start now refetch_interval s) (start-keys now refetch_interval s)
  where
    go : (r : KeySet × Bool) → r.0.keys ≡ s.keys → (after_refetch r).0.keys ≡ s.keys
    go (t, true) h = h
    go (t, false) h = h

pub with_keys-keys :
    (now : ℕ) (kid : Option ℕ) (alg : ℕ) (keys : Keys) (s : KeySet)
    → (with_keys now kid alg keys s).0.keys ≡ s.keys
unfolding with_keys
with_keys-keys now kid alg keys s =
    go (is_in alg s.algorithms) (picked now kid alg (pick keys kid) s)
      (picked-keys now kid alg (pick keys kid) s)
  where
    go : (b : Bool) (r : KeySet × Found) → r.0.keys ≡ s.keys → (if_accepted b s r).0.keys ≡ s.keys
    go true r h = h
    go false r h = refl

pub find_from-keys :
    (now : ℕ) (kid : Option ℕ) (alg : ℕ) (o : Option Keys) (s : KeySet)
    → (find_from now kid alg o s).0.keys ≡ s.keys
find_from-keys now kid alg none s =
    go (start now retry_interval s) (start-keys now retry_interval s)
  where
    go : (r : KeySet × Bool) → r.0.keys ≡ s.keys → (after_start waits_for_keys r).0.keys ≡ s.keys
    go (t, true) h = h
    go (t, false) h = h
find_from-keys now kid alg (some keys) s =
    with_keys-keys now kid alg keys (refresh_if_stale now s) ∙ refresh-keys now s
