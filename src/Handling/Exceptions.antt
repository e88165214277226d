-- ===== src/Handling/Exceptions.antt =====
-- `find`, `register` and `guard` of python/oxbrook/_errors.py.
use oxbrook.Prelude.{
  ℕ, Bool, false, ◌||◌, not, Option, none, some, List, [], ◌∷◌, ◌++◌, ◌==◌, if◌then◌else◌, Result,
  ok, ◌>>◌, require, type_error, value_error, is_some, Text,
}

pub record Raised : Type 0 where
  -- `type(exc).__mro__`, the exception's own class first
  pub mro : List ℕ
  pub detail : ℕ

-- The classes `Exception` and `HTTPError`.
abbrev pub exception_class : ℕ
exception_class = 0

abbrev pub http_error_class : ℕ
http_error_class = 1

abbrev pub is_in : ℕ → List ℕ → Bool
is_in c [] = false
is_in c (d ∷ ds) = c == d || is_in c ds

abbrev pub is_a : ℕ → Raised → Bool
is_a c e = is_in c e.mro

pub record Reply {ℓ} (V : Type ℓ) : Type ℓ where
  pub value : V
  pub status : Option ℕ
  pub headers : List (Text × Text)

-- What a handler returns: a `Reply`, or anything else.
pub data Answer {ℓ} (V : Type ℓ) : Type ℓ where
  reply : Reply V → Answer V
  plain : V → Answer V

pub data Outcome {ℓ} (V : Type ℓ) : Type ℓ where
  answered : V → Outcome V
  raised : Raised → Outcome V

-- `handlers.get(cls)`
abbrev pub lookup {ℓ} : {H : Type ℓ} → ℕ → List (ℕ × H) → Option H
lookup c [] = none
lookup c ((d, h) ∷ hs) = if c == d then some h else lookup c hs

-- `if handler is not None: return handler`
abbrev pub or_else {ℓ} : {H : Type ℓ} → Option H → Option H → Option H
or_else (some h) rest = some h
or_else none rest = rest

unfoldable pub find_in {ℓ} : {H : Type ℓ} → List (ℕ × H) → List ℕ → Option H
find_in hs [] = none
find_in hs (c ∷ cs) = or_else (lookup c hs) (find_in hs cs)

abbrev pub find {ℓ} : {H : Type ℓ} → List (ℕ × H) → Raised → Option H
find hs e = find_in hs e.mro

-- `register`, and the decorator that it returns: the class's own MRO, whether the function is
-- `async def`, and the function.
unfoldable pub register {ℓ} :
    {H : Type ℓ} → List (ℕ × H) → ℕ → List ℕ → Bool → H → Result (List (ℕ × H))
register hs c bases is_async fn = do
  require (is_in exception_class bases) type_error
  require is_async type_error
  require (not (is_some (lookup c hs))) value_error
  ok (hs ++ (c, fn) ∷ [])

-- A coroutine function of a request, in a world that it changes.
abbrev pub Run {ℓ κ μ} : Type ℓ → Type κ → Type μ → Type (ℓ ⊔ κ ⊔ μ)
Run R S V = R → S → S × Outcome V

-- The registered functions, by class.
abbrev pub Handlers {ℓ κ μ} : Type ℓ → Type κ → Type μ → Type (ℓ ⊔ κ ⊔ μ)
Handlers R S V = List (ℕ × (Raised → Run R S (Answer V)))

-- `drop_after` is `_drop_after`: the request, which is not of this code, forgets what was set aside.
module _ {ℓ κ μ} {R : Type ℓ} {S : Type κ} {V : Type μ} (drop_after : R → S → S) where
  -- `except HTTPError as answer`, where the exception's handler raised in its turn
  abbrev pub fall_back : Option (Raised → Run R S (Answer V)) → Raised → Run R S (Answer V)
  fall_back none e request s = (s, raised e)
  fall_back (some fallback) e request s = fallback e request s

  abbrev pub answer_raised : Handlers R S V → R → S × Outcome (Answer V) → S × Outcome (Answer V)
  answer_raised hs request (s, answered a) = (s, answered a)
  answer_raised hs request (s, raised e) =
      fall_back (if is_a http_error_class e then find hs e else none) e request s

  -- `except Exception as exc`
  abbrev pub handle :
      Handlers R S V → Option (Raised → Run R S (Answer V)) → Raised → Run R S (Answer V)
  handle hs none e request s = (s, raised e)
  handle hs (some handler) e request s =
      answer_raised hs request (handler e request (drop_after request s))

  abbrev pub catch : Handlers R S V → R → S × Outcome (Answer V) → S × Outcome (Answer V)
  catch hs request (s, answered a) = (s, answered a)
  catch hs request (s, raised e) =
      handle hs (if is_a exception_class e then find hs e else none) e request s

  unfoldable pub guard : Run R S (Answer V) → Handlers R S V → Run R S (Answer V)
  guard target hs request s = catch hs request (target request s)
