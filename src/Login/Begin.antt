-- ===== src/Login/Begin.antt =====
-- `_local`, `_pending`, `_target` and `_begin` of python/oxbrook/_login.py.
use oxbrook.Prelude.{
  ℕ, zero, suc, ◌-◌, Bool, false, not, ◌&&◌, Option, none, some, List, [], ◌∷◌, ◌==◌, ltb, leb,
  if◌then◌else◌, length, all, Text,
}
use oxbrook.Prelude.Dicts.{Dict, pop, put}

abbrev pub slash : ℕ
slash = 47

abbrev pub backslash : ℕ
backslash = 92

abbrev pub pending_limit : ℕ
pending_limit = 4

abbrev pub pending_ttl : ℕ
pending_ttl = 600

-- `_local`
abbrev pub is_plain : ℕ → Bool
is_plain c = not (c == backslash) && (leb 33 c && leb c 126)

abbrev pub is_rooted : Text → Bool
is_rooted [] = false
is_rooted (c ∷ []) = c == slash
is_rooted (c ∷ d ∷ s) = c == slash && not (d == slash)

unfoldable pub local : Text → Option Text
local value =
    if is_rooted value && leb (length value) 2048
    then (if all is_plain value then some value else none)
    else none

-- `_target`, from the values of `next`
abbrev pub or_after : Option Text → Text → Text
or_after none after = after
or_after (some t) after = t

unfoldable pub target : Text → List Text → Text
target after [] = after
target after (wanted ∷ []) = or_after (local wanted) after
target after (_ ∷ _ ∷ _) = after

-- A login in progress: the provider's name, what the callback needs, and when it began.
pub record Entry : Type 0 where
  pub name : ℕ
  pub verifier : ℕ
  pub nonce : Option ℕ
  pub target : Text
  pub redirect_uri : ℕ
  pub began : ℕ

-- A browser's session: the logins in progress, if that is a dictionary, where an entry may be
-- malformed, and who is logged in.
pub record Session : Type 0 where
  pub stored : Option (Dict (Option Entry))
  pub user : Option ℕ

abbrev pub empty : Session
empty = record { stored = none; user = none }

-- `_pending`
abbrev pub keep_live : ℕ → ℕ → Option Entry → Dict Entry → Dict Entry
keep_live now state none rest = rest
keep_live now state (some e) rest =
    if leb (now - e.began) pending_ttl then (state, e) ∷ rest else rest

abbrev pub live : ℕ → Dict (Option Entry) → Dict Entry
live now [] = []
live now ((state, o) ∷ found) = keep_live now state o (live now found)

abbrev pub pending : ℕ → Option (Dict (Option Entry)) → Dict Entry
pending now none = []
pending now (some found) = live now found

abbrev pub stored_as : Dict Entry → Dict (Option Entry)
stored_as [] = []
stored_as ((state, e) ∷ p) = (state, some e) ∷ stored_as p

-- `min(pending, key=...)`: the first of those that began first
abbrev pub older : ℕ → ℕ → Dict Entry → ℕ
older state began [] = state
older state began ((other, e) ∷ p) =
    if ltb e.began began then older other e.began p else older state began p

abbrev pub drop_oldest : Dict Entry → Dict Entry
drop_oldest [] = []
drop_oldest ((state, e) ∷ p) = pop (older state e.began p) ((state, e) ∷ p)

-- `while len(pending) > PENDING_LIMIT`, on fuel; as many rounds as there are logins are enough.
abbrev pub trim : ℕ → Dict Entry → Dict Entry
trim zero p = p
trim (suc n) p =
    let rest = trim n (drop_oldest p) in if leb (length p) pending_limit then p else rest

-- `_begin`
unfoldable pub begin : ℕ → ℕ → Entry → Session → Session
begin now state e s =
    let p = put state e (pending now s.stored) in
    record s { stored = some (stored_as (trim (length p) p)) }
