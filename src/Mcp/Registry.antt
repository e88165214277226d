-- ===== src/Mcp/Registry.antt =====
-- `Sessions` of python/oxbrook/_mcp.py: every live session of the process.
--
-- The dict from ids to sessions is the list of its values, in order, and a session's id is its key.
-- An operation returns the registry, its result, and the sessions that it closed. The clock is a
-- number, in a unit in which `idle` is whole, and `fresh` is what `secrets.token_urlsafe` returns.
use oxbrook.Prelude.{
  ℕ, ◌-◌, Bool, true, false, not, Option, none, some, List, [], ◌∷◌, length, ltb, leb, keep_if,
  if◌then◌else◌, Text, text_eq, map,
}
use oxbrook.Mcp.Session.{Session, Released, open_session, listening, close_session}

pub record Sessions {ℓ} (A : Type ℓ) : Type ℓ where
  pub by_id : List (Session A)
  pub idle : ℕ
  pub limit : ℕ

module _ {ℓ} {A : Type ℓ} where
  -- `dict.get`, `del`, and assignment to a key
  abbrev pub find : Text → List (Session A) → Option (Session A)
  find sid [] = none
  find sid (s ∷ l) = if text_eq s.id sid then some s else find sid l

  abbrev pub erase : Text → List (Session A) → List (Session A)
  erase sid [] = []
  erase sid (s ∷ l) = if text_eq s.id sid then l else s ∷ erase sid l

  abbrev pub store : Session A → List (Session A) → List (Session A)
  store n [] = n ∷ []
  store n (s ∷ l) = if text_eq s.id n.id then n ∷ l else s ∷ store n l

  -- `_expired`
  unfoldable pub expired : ℕ → ℕ → Session A → Bool
  expired idle now s = if listening s then false else ltb idle (now - s.touched)

  abbrev pub closed_all : List (Session A) → List (Session A × Released A)
  closed_all l = map close_session l

  unfoldable pub sweep : ℕ → Sessions A → Sessions A × List (Session A × Released A)
  sweep now r = (
    record r { by_id = keep_if (λ s. not (expired r.idle now s)) r.by_id },
    closed_all (keep_if (expired r.idle now) r.by_id),
  )

  unfoldable pub insert : Session A → Sessions A → Sessions A × Option (Session A)
  insert s r =
      if leb r.limit (length r.by_id)
      then (r, none)
      else (record r { by_id = store s r.by_id }, some s)

  unfoldable pub create_session :
      Text → Text → ℕ → Sessions A → Sessions A × Option (Session A) × List (Session A × Released A)
  unfolding sweep insert
  create_session fresh version now r =
      let swept = sweep now r in
      let made = insert (open_session fresh version now) swept.0 in (made.0, made.1, swept.1)

  abbrev pub touch : ℕ → Session A → Session A
  touch now s = record s { touched = now }

  -- The part of `get` under the lock, for a session that is there.
  abbrev pub get_found :
      ℕ → Session A → Sessions A → Sessions A × Option (Session A) × List (Session A × Released A)
  get_found now s r =
      if expired r.idle now s
      then (record r { by_id = erase s.id r.by_id }, none, closed_all (s ∷ []))
      else (record r { by_id = store (touch now s) r.by_id }, some (touch now s), [])

  -- `if not sid: return None`
  unfoldable pub get :
      Text → ℕ → Sessions A → Sessions A × Option (Session A) × List (Session A × Released A)
  get [] now r = (r, none, [])
  get (c ∷ sid) now r = elim (find (c ∷ sid) r.by_id) [
    | none ↦ (r, none, [])
    | some s ↦ get_found now s r
  ]

  unfoldable pub drop_session :
      Text → Sessions A → Sessions A × Bool × List (Session A × Released A)
  drop_session [] r = (r, false, [])
  drop_session (c ∷ sid) r = elim (find (c ∷ sid) r.by_id) [
    | none ↦ (r, false, [])
    | some s ↦ (record r { by_id = erase (c ∷ sid) r.by_id }, true, closed_all (s ∷ []))
  ]

  unfoldable pub close_all : Sessions A → Sessions A × List (Session A × Released A)
  close_all r = (record r { by_id = [] }, closed_all r.by_id)

  -- A handler's change to a session that the registry holds, by its id.
  unfoldable pub adjust : Text → (Session A → Session A) → Sessions A → Sessions A
  adjust sid f r = elim (find sid r.by_id) [
    | none ↦ r
    | some s ↦ record r { by_id = store (f s) r.by_id }
  ]
