-- ===== src/Oidc/Tests.antt =====
-- A provider with one RSA key and one kept for encryption.
use oxbrook.Prelude.{
  inl, inr, ◌+◌, ◌*◌, ◌≤◌, ◌≡◌, refl, min, true, none, some, List, [], ◌∷◌, arith,
}
use oxbrook.Oidc.Keys.{rsa, text, Jwk, parse, is_usable, pick, use_entry, compatible}
use oxbrook.Oidc.KeySet.{
  retry_interval, create, start, Network, discover, fetch, complete, refresh_if_stale, with_keys,
  find, load, resume_first, resume_unknown,
}
use oxbrook.Oidc.Safety.{IsKeyOf}
use oxbrook.Oidc.Calls.{Call, finds, loads, count_loads, completes, step, run}
use oxbrook.Oidc.Rate.{run-fetches}
use oxbrook.Oidc.Trust.{find-IsKeyOf}

abbrev signing : Jwk
signing = record {
  use_of = none;
  kty = rsa;
  operations = none;
  alg = none;
  kid = text 9;
  crv = none;
  dumped = 1;
  read = some 42;
}

abbrev encrypting : Jwk
encrypting = record {
  use_of = some 1;
  kty = rsa;
  operations = none;
  alg = none;
  kid = text 8;
  crv = none;
  dumped = 2;
  read = some 43;
}

abbrev published : List Jwk
published = encrypting ∷ signing ∷ []

abbrev net : Network
net = record {
  is_allowed = λ _. true;
  document = some (record { issuer = 3; jwks_uri = some 5; advertised = some (0 ∷ 77 ∷ []) });
  key_set = λ _. some published;
}

-- A first token, the keys, a load, and three tokens with made-up key ids.
abbrev calls : List Call
calls =
    finds 100 (some 9) 0
    ∷ completes 200 net
    ∷ finds 300 (some 1000) 0
    ∷ finds 400 (some 1001) 0
    ∷ loads 500
    ∷ finds 70000 (some 1002) 0
    ∷ []

run-fetches_example :
    (run calls (create 3 3600000 none)).fetches * min retry_interval 3600000 + 100
    ≤ 70000 + (1 + count_loads calls) * min retry_interval 3600000
run-fetches_example = run-fetches 3 3600000 none calls 100 70000 (
  omega arith,
  (omega arith, (omega arith, (omega arith, (omega arith, (omega arith, omega arith))))),
)

-- The first token, which waits for the keys.
find-IsKeyOf_example : (jwks : List Jwk) × (jwks ≡ published) × IsKeyOf 0 (some 9) 42 jwks
unfolding create find step with_keys refresh_if_stale start load complete fetch discover parse
    is_usable pick use_entry compatible resume_first resume_unknown
find-IsKeyOf_example =
    find-IsKeyOf (λ jwks. jwks ≡ published) 3 3600000 none calls 70001 0 42 (some 9) net
      (create 3 3600000 none) (tt, ((λ uri jwks h. ground (arith, h)), (tt, (tt, (tt, (tt, tt))))))
      (λ uri jwks h. ground (arith, h)) (inr (inl refl))
