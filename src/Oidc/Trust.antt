-- ===== src/Oidc/Trust.antt =====
-- `KeySet` over calls in any order: which keys tokens are checked with.
use oxbrook.Prelude.{
  ◌⊎◌, inl, inr, ℕ, ◌≡◌, refl, sym, ap, subst, ◌∙◌, Bool, true, false, Option, none, some, is_some,
  List, [], ◌∷◌, if◌then◌else◌, arith, is_in, All,
}
use oxbrook.Oidc.Keys.{Jwk, Keys, Entry, parse, pick, key, use_entry}
use oxbrook.Oidc.KeySet.{
  keys_or, resume_unknown, KeySet, create, start, Network, Fetched, fetch, located, at_location,
  parsed, usable, on_fetched, complete, retry_interval, refetch_interval, refresh_if_stale, answers,
  waits_for_keys, after_start, after_refetch, picked, if_accepted, with_keys, find_from, find,
  resume_first, discovered, load,
}
use oxbrook.Oidc.Kept.{start-keys, find_from-keys, with_keys-keys}
use oxbrook.Oidc.Safety.{IsKeyOf, use_entry-parse}
use oxbrook.Oidc.Calls.{Call, finds, resumes, discovers, loads, completes, step, run}

-- An answer that is a key was picked from the keys in hand.
picked-key :
    (now : ℕ) (kid : Option ℕ) (alg k : ℕ) (o : Option Entry) (s : KeySet)
    → (picked now kid alg o s).1 ≡ answers (key k)
    → use_entry alg o ≡ key k
picked-key now kid alg k (some e) s h = ground (arith, h)
picked-key now none alg k none s h = absurd cc
picked-key now (some kid) alg k none s h = go (start now refetch_interval s) h
  where
    go : (r : KeySet × Bool) → (after_refetch r).1 ≡ answers (key k) → use_entry alg none ≡ key k
    go (t, true) h = absurd cc
    go (t, false) h = absurd cc

with_keys-key :
    (now : ℕ) (kid : Option ℕ) (alg k : ℕ) (keys : Keys) (s : KeySet)
    → (with_keys now kid alg keys s).1 ≡ answers (key k)
    → use_entry alg (pick keys kid) ≡ key k
unfolding with_keys
with_keys-key now kid alg k keys s h = go (is_in alg s.algorithms) h
  where
    go :
        (b : Bool)
        → (if_accepted b s (picked now kid alg (pick keys kid) s)).1 ≡ answers (key k)
        → use_entry alg (pick keys kid) ≡ key k
    go true e = picked-key now kid alg k (pick keys kid) s e
    go false e = absurd cc

find_from-key :
    (now : ℕ) (kid : Option ℕ) (alg k : ℕ) (o : Option Keys) (s : KeySet)
    → (find_from now kid alg o s).1 ≡ answers (key k)
    → (keys : Keys) × (o ≡ some keys) × (use_entry alg (pick keys kid) ≡ key k)
find_from-key now kid alg k none s h = go (start now retry_interval s) h
  where
    go :
        (r : KeySet × Bool)
        → (after_start waits_for_keys r).1 ≡ answers (key k)
        → (keys : Keys) × (none ≡ some keys) × (use_entry alg (pick keys kid) ≡ key k)
    go (t, true) h = absurd cc
    go (t, false) h = absurd cc
find_from-key now kid alg k (some keys) s h =
    (keys, refl, with_keys-key now kid alg k keys (refresh_if_stale now s) h)

-- The keys that a fetch returns to those who wait for it, if it does not fail.
abbrev pub returned : Option Fetched → Option Keys
returned none = none
returned (some f) = some f.keys

module _ (provider : List Jwk → Type 0) where
  -- The network reads only sets that the provider published.
  abbrev pub IsFaithful : Network → Type 0
  IsFaithful net = (uri : ℕ) (jwks : List Jwk) → net.key_set uri ≡ some jwks → provider jwks

  abbrev pub IsHonest : Call → Type 0
  IsHonest (completes _ net) = IsFaithful net
  IsHonest _ = Unit

  -- The keys are those of such a set.
  abbrev AreTrusted : Option Keys → Type 0
  AreTrusted none = Unit
  AreTrusted (some keys) = (jwks : List Jwk) × provider jwks × (keys ≡ (parse jwks ([], [])).0)

  fetched-AreTrusted :
      (net : Network) (s : KeySet) (f : Fetched)
      → ((uri : ℕ) (jwks : List Jwk) → net.key_set uri ≡ some jwks → provider jwks)
      → fetch net s ≡ some f
      → AreTrusted (some f.keys)
  unfolding fetch
  fetched-AreTrusted net s f honest = at (located net.is_allowed net.document s s.jwks_uri)
    where
      non_empty :
          (uri : ℕ) (algorithms : List ℕ) (jwks : List Jwk) (kept : Keys × List ℕ)
          → net.key_set uri ≡ some jwks
          → parse jwks ([], []) ≡ kept
          → usable uri algorithms kept ≡ some f
          → AreTrusted (some f.keys)
      non_empty uri algorithms jwks ([], seen) r p e = absurd cc
      non_empty uri algorithms jwks (k ∷ keys, seen) r p e =
          let same : k ∷ keys ≡ f.keys = ground (arith, e) in
          (jwks, honest uri jwks r, sym same ∙ sym (ap (λ q. q.0) p))

      read :
          (uri : ℕ) (algorithms : List ℕ) (o : Option (List Jwk))
          → net.key_set uri ≡ o
          → parsed uri algorithms o ≡ some f
          → AreTrusted (some f.keys)
      read uri algorithms none r e = absurd cc
      read uri algorithms (some jwks) r e =
          non_empty uri algorithms jwks (parse jwks ([], [])) r refl e

      at : (o : Option (ℕ × List ℕ)) → at_location net o ≡ some f → AreTrusted (some f.keys)
      at none e = absurd cc
      at (some (uri, algorithms)) e = read uri algorithms (net.key_set uri) refl e

  AreTrusted-step :
      (c : Call) (s : KeySet) → IsHonest c → AreTrusted s.keys → AreTrusted (step c s).keys
  unfolding step find resume_first discovered load complete
  AreTrusted-step (finds now kid alg) s _ h =
      subst AreTrusted (sym (find_from-keys now kid alg s.keys s)) h
  AreTrusted-step (resumes now kid alg none) s _ h = h
  AreTrusted-step (resumes now kid alg (some keys)) s _ h =
      subst AreTrusted (sym (with_keys-keys now kid alg keys s)) h
  AreTrusted-step (discovers now) s _ h = go (is_some s.jwks_uri)
    where
      go : (b : Bool) → AreTrusted (if b then s else (start now retry_interval s).0).keys
      go true = h
      go false = subst AreTrusted (sym (start-keys now retry_interval s)) h
  AreTrusted-step (loads now) s _ h = subst AreTrusted (sym (start-keys now 0 s)) h
  AreTrusted-step (completes now net) s honest h = go (fetch net s) refl
    where
      go : (o : Option Fetched) → fetch net s ≡ o → AreTrusted (on_fetched now o s).0.keys
      go none e = h
      go (some f) e = fetched-AreTrusted net s f honest e

  AreTrusted-run :
      (cs : List Call) (s : KeySet)
      → All IsHonest cs
      → AreTrusted s.keys
      → AreTrusted (run cs s).keys
  AreTrusted-run [] s _ h = h
  AreTrusted-run (c ∷ cs) s (p, ps) h = AreTrusted-run cs (step c s) ps (AreTrusted-step c s p h)

  returned-AreTrusted :
      (net : Network) (s : KeySet) → IsFaithful net → AreTrusted (returned (fetch net s))
  returned-AreTrusted net s faithful = go (fetch net s) refl
    where
      go : (o : Option Fetched) → fetch net s ≡ o → AreTrusted (returned o)
      go none e = tt
      go (some f) e = fetched-AreTrusted net s f faithful e

  -- A key picked from trusted keys.
  IsKeyOf-picked :
      (alg k : ℕ) (kid : Option ℕ) (o : Option Keys) (keys : Keys)
      → AreTrusted o
      → o ≡ some keys
      → use_entry alg (pick keys kid) ≡ key k
      → (jwks : List Jwk) × provider jwks × IsKeyOf alg kid k jwks
  IsKeyOf-picked alg k kid o keys h e u =
      let (jwks, p, q) = subst AreTrusted e h in
      (
        jwks,
        p,
        use_entry-parse alg k kid jwks (subst (λ ks. use_entry alg (pick ks kid) ≡ key k) q u),
      )

  IsKeyOf-resume_first :
      (now alg k : ℕ) (kid : Option ℕ) (o : Option Keys) (s : KeySet)
      → AreTrusted o
      → (resume_first now kid alg o s).1 ≡ answers (key k)
      → (jwks : List Jwk) × provider jwks × IsKeyOf alg kid k jwks
  unfolding resume_first
  IsKeyOf-resume_first now alg k kid none s h e = absurd cc
  IsKeyOf-resume_first now alg k kid (some keys) s h e =
      IsKeyOf-picked alg k kid (some keys) keys h refl (with_keys-key now kid alg k keys s e)

  IsKeyOf-keys_or :
      (alg k : ℕ) (kid : Option ℕ) (o held : Option Keys)
      → AreTrusted o
      → AreTrusted held
      → use_entry alg (pick (keys_or o held) kid) ≡ key k
      → (jwks : List Jwk) × provider jwks × IsKeyOf alg kid k jwks
  unfolding pick use_entry
  IsKeyOf-keys_or alg k kid (some keys) held h i e =
      IsKeyOf-picked alg k kid (some keys) keys h refl e
  IsKeyOf-keys_or alg k kid none (some keys) h i e =
      IsKeyOf-picked alg k kid (some keys) keys i refl e
  IsKeyOf-keys_or alg k none none none h i e = absurd (ground (arith, e))
  IsKeyOf-keys_or alg k (some j) none none h i e = absurd (ground (arith, e))

-- A token gets the key: at once, with the keys that it waited for as the first, or with those of
-- the fetch that an unknown key id asked for.
abbrev pub IsGiven : ℕ → Option ℕ → ℕ → ℕ → Option Keys → KeySet → Type 0
IsGiven now kid alg k keys s =
    ((find now kid alg s).1 ≡ answers (key k))
    ⊎ ((resume_first now kid alg keys s).1 ≡ answers (key k))
    ⊎ (resume_unknown kid alg keys s ≡ key k)

-- Whatever was called before, a token is only checked with a key of a set that the provider
-- published, whether it is found at once or after waiting for a fetch: one for checking
-- signatures, under the key id that the token names if it names one, of the type and on a curve of
-- the token's algorithm, and not kept for another algorithm. Every set that the network read was
-- published by the provider.
pub find-IsKeyOf :
    (provider : List Jwk → Type 0) (issuer max_age : ℕ) (explicit : Option (List ℕ))
    (cs : List Call) (now alg k : ℕ) (kid : Option ℕ) (net : Network) (fetching : KeySet)
    → All (IsHonest provider) cs
    → IsFaithful provider net
    → IsGiven now kid alg k
        (returned (fetch net fetching))
        (run cs (create issuer max_age explicit))
    → (jwks : List Jwk) × provider jwks × IsKeyOf alg kid k jwks
unfolding create find resume_unknown
find-IsKeyOf provider issuer max_age explicit cs now alg k kid net fetching honest faithful given =
    elim given [
      | inl h ↦
          let (keys, same, u) = find_from-key now kid alg k s.keys s h in
          IsKeyOf-picked provider alg k kid s.keys keys held same u
      | inr (inl h) ↦ IsKeyOf-resume_first provider now alg k kid keys s fetched h
      | inr (inr h) ↦ IsKeyOf-keys_or provider alg k kid keys s.keys fetched held h
    ]
  where
    s : KeySet
    s = run cs (create issuer max_age explicit)

    keys : Option Keys
    keys = returned (fetch net fetching)

    held : AreTrusted provider s.keys
    held = AreTrusted-run provider cs (create issuer max_age explicit) honest tt

    fetched : AreTrusted provider keys
    fetched = returned-AreTrusted provider net fetching faithful
