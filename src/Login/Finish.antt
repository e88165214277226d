-- ===== src/Login/Finish.antt =====
-- `_exchange`, `_identify` and `_finish` of python/oxbrook/_login.py.
use oxbrook.Prelude.{
  ℕ, Bool, false, not, ◌&&◌, ◌||◌, Option, none, some, List, ◌==◌, ltb, leb, if◌then◌else◌, length,
  Text,
}
use oxbrook.Prelude.Dicts.{Dict, get, pop}
use oxbrook.Login.Begin.{Entry, Session, pending, stored_as}

-- What a callback brings: whether a parameter is repeated, and those that the flow reads; an error is
-- `access_denied` or another.
pub record Callback : Type 0 where
  pub repeats : Bool
  pub state : Option ℕ
  pub iss : Option ℕ
  pub error : Option Bool
  pub code : Option ℕ

-- A step of the flow: what it gives, or the status of the refusal.
pub data Step {ℓ} (A : Type ℓ) : Type ℓ where
  gives : A → Step A
  refuses : ℕ → Step A

-- The token endpoint's document, if it is an object: whether it has an error and whether that is true
-- as Python has it, whether its access token is a text, and its ID token if that is one.
pub record Document : Type 0 where
  pub has_error : Bool
  pub is_error : Bool
  pub has_access_token : Bool
  pub id_token : Option ℕ

-- What the ID token says, once verified; its nonce is a text, of which the empty one is 0.
pub record Claims : Type 0 where
  pub subject : ℕ
  pub nonce : Option ℕ
  pub audiences : List ℕ
  pub azp : Option ℕ

pub data Checked : Type 0 where
  verified : Claims → Checked
  unverified unreachable : Checked

-- The flow's own name and client id, which issuers are its own, and whether the provider promised to
-- name one; what its token endpoint answers, if it is reached; its verifier; and the application.
pub record Flow : Type 0 where
  pub name : ℕ
  pub client_id : ℕ
  pub after_login : Text
  pub issuer_ok : ℕ → Bool
  pub promised : Bool
  pub post : ℕ → ℕ → ℕ → Option (ℕ × Option Document)
  pub check : ℕ → Checked
  pub on_login : ℕ → Option ℕ

-- `_exchange`
abbrev pub error_status : Bool → ℕ → ℕ
error_status is_error status =
    if leb 500 status || not (is_error || (leb 400 status && ltb status 500)) then 502 else 400

abbrev pub read_document : ℕ → Option Document → Step (Option ℕ)
read_document status none = refuses (error_status false status)
read_document status (some d) =
    if not (status == 200) || (d.has_error || not d.has_access_token)
    then refuses (error_status d.is_error status)
    else gives d.id_token

abbrev pub exchange : Option (ℕ × Option Document) → Step (Option ℕ)
exchange none = refuses 502
exchange (some (status, document)) = read_document status document

-- `_identify`
abbrev pub is_nonce : Option ℕ → Option ℕ → Bool
is_nonce none expected = false
is_nonce (some offered) none = offered == 0
is_nonce (some offered) (some expected) = offered == expected

abbrev pub is_client : ℕ → Option ℕ → Bool
is_client client none = false
is_client client (some azp) = azp == client

abbrev pub with_claims : Flow → Option ℕ → Checked → Step ℕ
with_claims f expected unverified = refuses 400
with_claims f expected unreachable = refuses 503
with_claims f expected (verified claims) =
    if is_nonce claims.nonce expected
    then (if leb (length claims.audiences) 1 || is_client f.client_id claims.azp
        then gives claims.subject
        else refuses 400)
    else refuses 400

abbrev pub identify : Flow → Option ℕ → Option ℕ → Step ℕ
identify f none expected = refuses 502
identify f (some token) expected = with_claims f expected (f.check token)

pub data Finish : Type 0 where
  refused : ℕ → Finish
  redirected : Text → Finish

abbrev pub iss_refused : (ℕ → Bool) → Bool → Option ℕ → Bool
iss_refused ok promised none = promised
iss_refused ok promised (some iss) = not (ok iss)

abbrev pub welcomed : Text → Option ℕ → Session → Session × Finish
welcomed t none s = (s, refused 403)
welcomed t (some value) s = (record { stored = none; user = some value }, redirected t)

abbrev pub identified : Flow → Text → Step ℕ → Session → Session × Finish
identified f t (refuses status) s = (s, refused status)
identified f t (gives who) s = welcomed t (f.on_login who) s

abbrev pub exchanged : Flow → Entry → Step (Option ℕ) → Session → Session × Finish
exchanged f e (refuses status) s = (s, refused status)
exchanged f e (gives tokens) s = identified f e.target (identify f tokens e.nonce) s

abbrev pub with_code : Flow → Entry → Option Bool → Option ℕ → Session → Session × Finish
with_code f e (some is_denied) code s = (s, refused (if is_denied then 403 else 400))
with_code f e none none s = (s, refused 400)
with_code f e none (some code) s =
    exchanged f e (exchange (f.post code e.verifier e.redirect_uri)) s

abbrev pub called_back : Flow → Callback → Entry → Session → Session × Finish
called_back f c e s =
    if not (e.name == f.name) || iss_refused f.issuer_ok f.promised c.iss
    then (s, refused 400)
    else with_code f e c.error c.code s

-- The entry is popped, whatever comes next.
abbrev pub on_entry : Flow → Callback → ℕ → Dict Entry → Option Entry → Session → Session × Finish
on_entry f c state p none s = (s, refused 400)
on_entry f c state p (some e) s =
    called_back f c e (record s { stored = some (stored_as (pop state p)) })

abbrev pub on_state : Flow → ℕ → Callback → Option ℕ → Session → Session × Finish
on_state f now c none s = (s, refused 400)
on_state f now c (some state) s =
    on_entry f c state (pending now s.stored) (get state (pending now s.stored)) s

-- `_finish`
unfoldable pub finish : Flow → ℕ → Callback → Session → Session × Finish
finish f now c s = if c.repeats then (s, refused 400) else on_state f now c c.state s
