-- ===== src/Login/Targets.antt =====
-- `_local` and `_target`, and the calls of a browser.
use oxbrook.Prelude.{
  ℕ, ◌≤◌, ◌≡◌, ◌≢◌, ◌⊎◌, inl, inr, refl, subst, ◌&&◌, Bool, true, false, Option, none, some, List,
  [], ◌∷◌, leb, if◌then◌else◌, length, all, Text, arith, All,
}
use oxbrook.Login.Begin.{
  slash, backslash, is_plain, is_rooted, local, or_after, target, Entry, Session, begin,
}
use oxbrook.Login.Finish.{Callback, Flow, finish}

-- A path on this site, as a browser reads it: a slash, not followed by another, and only printable
-- characters of ASCII, no backslash and no space among them.
abbrev pub IsPlain : ℕ → Type 0
IsPlain c = (c ≢ backslash) × (33 ≤ c) × (c ≤ 126)

abbrev pub IsRooted : Text → Type 0
IsRooted [] = ⊥
IsRooted (c ∷ []) = c ≡ slash
IsRooted (c ∷ d ∷ s) = (c ≡ slash) × (d ≢ slash)

pub record IsPath (t : Text) : Type 0 where
  pub rooted : IsRooted t
  pub plain : All IsPlain t

is_rooted-IsRooted : (t : Text) → is_rooted t ≡ true → IsRooted t
is_rooted-IsRooted [] h = cc
is_rooted-IsRooted (c ∷ []) h = ground (arith, h)
is_rooted-IsRooted (c ∷ d ∷ s) h = (ground (arith, h), ground (arith, h))

all-IsPlain : (t : Text) → all is_plain t ≡ true → All IsPlain t
all-IsPlain [] h = tt
all-IsPlain (c ∷ t) h =
    ((ground (arith, h), ground (arith, h), ground (arith, h)), all-IsPlain t (ground (arith, h)))

local-IsPath : (value t : Text) → local value ≡ some t → IsPath t
unfolding local
local-IsPath value t h =
    go (is_rooted value && leb (length value) 2048) (all is_plain value) refl refl h
  where
    go :
        (a b : Bool)
        → (is_rooted value && leb (length value) 2048) ≡ a
        → all is_plain value ≡ b
        → (if a then (if b then some value else none) else none) ≡ some t
        → IsPath t
    go true true p q e =
        let same : value ≡ t = cc in
        subst IsPath same (record {
          rooted = is_rooted-IsRooted value (ground (arith, p));
          plain = all-IsPlain value q;
        })
    go true false p q e = absurd cc
    go false _ p q e = absurd cc

pub target-IsPath :
    (after : Text) (wanted : List Text)
    → IsPath (target after wanted) ⊎ (target after wanted ≡ after)
unfolding target
target-IsPath after [] = inr refl
target-IsPath after (w ∷ []) = go (local w) refl
  where
    go : (o : Option Text) → local w ≡ o → IsPath (or_after o after) ⊎ (or_after o after ≡ after)
    go none e = inr refl
    go (some t) e = inl (local-IsPath w t e)
target-IsPath after (_ ∷ _ ∷ _) = inr refl

-- What a browser does, with the flows of the providers: it begins a login, or comes back.
pub data Call : Type 0 where
  begins : Flow → ℕ → ℕ → ℕ → Option ℕ → List Text → ℕ → Call
  finishes : Flow → ℕ → Callback → Call

abbrev pub entry_of : Flow → ℕ → ℕ → Option ℕ → List Text → ℕ → Entry
entry_of f now verifier nonce wanted redirect = record {
  name = f.name;
  verifier = verifier;
  nonce = nonce;
  target = target f.after_login wanted;
  redirect_uri = redirect;
  began = now;
}

abbrev pub step : Call → Session → Session
step (begins f now state verifier nonce wanted redirect) s =
    begin now state (entry_of f now verifier nonce wanted redirect) s
step (finishes f now c) s = (finish f now c s).0

abbrev pub run : List Call → Session → Session
run [] s = s
run (k ∷ ks) s = run ks (step k s)

-- One of the calls began this login with this state.
abbrev pub IsBegun : List Call → ℕ × Entry → Type 0
IsBegun [] e = ⊥
IsBegun (begins f now state verifier nonce wanted redirect ∷ ks) e =
    ((state, entry_of f now verifier nonce wanted redirect) ≡ e) ⊎ IsBegun ks e
IsBegun (finishes _ _ _ ∷ ks) e = IsBegun ks e
