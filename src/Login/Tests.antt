-- ===== src/Login/Tests.antt =====
-- A login that leads to a page of notes.
use oxbrook.Prelude.{
  ℕ, ◌+◌, ◌≤◌, ◌≡◌, ◌⊎◌, refl, true, false, none, some, List, [], ◌∷◌, codes, Text,
}
use oxbrook.Login.Begin.{pending_ttl, local, target, Entry, begin}
use oxbrook.Login.Finish.{Callback, Document, Claims, verified, Flow, finish}
use oxbrook.Login.Targets.{Call, begins, IsBegun, IsPath}
use oxbrook.Login.Landing.{IsAfter, IsVouched, finish-IsBegun}

abbrev home : Text
home = codes "/"

abbrev notes : Text
notes = codes "/notes"

abbrev document : Document
document = record {
  has_error = false;
  is_error = false;
  has_access_token = true;
  id_token = some 11;
}

abbrev claims : Claims
claims = record { subject = 12; nonce = some 9; audiences = 6 ∷ []; azp = none }

abbrev flow : Flow
flow = record {
  name = 1;
  client_id = 6;
  after_login = home;
  issuer_ok = λ _. true;
  promised = false;
  post = λ _ _ _. some (200, some document);
  check = λ _. verified claims;
  on_login = λ who. some who;
}

abbrev callback : Callback
callback = record { repeats = false; state = some 7; iss = none; error = none; code = some 5 }

abbrev calls : List Call
calls =
    begins flow 100 7 3 (some 9) (notes ∷ []) 4
    ∷ begins flow 120 8 3 (some 10) (codes "//evil" ∷ []) 4
    ∷ []

finish-IsBegun_example :
    ((state : ℕ) × (e : Entry) × (some 7 ≡ some state)
      × IsBegun calls (state, e)
      × (e.name ≡ 1)
      × (200 ≤ e.began + pending_ttl)
      × (e.target ≡ notes)
      × IsVouched flow e.nonce)
    × (IsPath notes ⊎ IsAfter calls notes)
unfolding begin local target finish
finish-IsBegun_example = finish-IsBegun flow 200 callback calls notes refl
