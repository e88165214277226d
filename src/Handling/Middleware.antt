-- ===== src/Handling/Middleware.antt =====
-- `as_reply`, `_link`, `wrap` and `merge` of python/oxbrook/_middleware.py.
use oxbrook.Prelude.{
  ℕ, ◌≡◌, refl, Option, none, some, List, [], ◌∷◌, ◌++◌, Text, text_eq, if◌then◌else◌,
}
use oxbrook.Handling.Exceptions.{Reply, Answer, reply, plain, Outcome, answered, raised, Run}

abbrev pub as_reply {ℓ} : {V : Type ℓ} → Answer V → Reply V
as_reply (reply r) = r
as_reply (plain v) = record { value = v; status = none; headers = [] }

abbrev pub replied {ℓ κ} :
    {S : Type κ} {V : Type ℓ} → S × Outcome (Answer V) → S × Outcome (Reply V)
replied (s, answered a) = (s, answered (as_reply a))
replied (s, raised e) = (s, raised e)

abbrev pub reversed {ℓ} : {A : Type ℓ} → List A → List A
reversed [] = []
reversed (x ∷ xs) = reversed xs ++ x ∷ []

-- What middleware is given, and what `call_next` is.
abbrev pub Call {ℓ κ μ} : Type ℓ → Type κ → Type μ → Type (ℓ ⊔ κ ⊔ μ)
Call R S V = Run R S (Reply V)

abbrev pub Middleware {ℓ κ μ} : Type ℓ → Type κ → Type μ → Type (ℓ ⊔ κ ⊔ μ)
Middleware R S V = Call R S V → Run R S (Answer V)

module _ {ℓ κ μ} {R : Type ℓ} {S : Type κ} {V : Type μ} where
  -- `_link`
  unfoldable pub link : Middleware R S V → Call R S V → Call R S V
  link middleware nxt request s = replied (middleware nxt request s)

  -- `endpoint`
  unfoldable pub endpoint : Run R S (Answer V) → Call R S V
  endpoint handler request s = replied (handler request s)

  -- The loop of `wrap`, over the middlewares in the order that it takes them.
  abbrev pub links : (Call R S V → Call R S V) → List (Middleware R S V) → Call R S V → Call R S V
  links around [] call = call
  links around (m ∷ ms) call = links around ms (around (link m call))

  unfoldable pub wrap :
      Run R S (Answer V) → List (Middleware R S V) → (Call R S V → Call R S V) → Call R S V
  wrap handler middlewares around = links around (reversed middlewares) (endpoint handler)

  links-append :
      (around : Call R S V → Call R S V) (ms ns : List (Middleware R S V)) (call : Call R S V)
      → links around (ms ++ ns) call ≡ links around ns (links around ms call)
  links-append around [] ns call = refl
  links-append around (m ∷ ms) ns call = links-append around ms ns (around (link m call))

  -- The first-registered middleware is the outermost.
  pub wrap-cons :
      (handler : Run R S (Answer V)) (m : Middleware R S V) (ms : List (Middleware R S V))
      (around : Call R S V → Call R S V)
      → wrap handler (m ∷ ms) around ≡ around (link m (wrap handler ms around))
  unfolding wrap
  wrap-cons handler m ms around = links-append around (reversed ms) (m ∷ []) (endpoint handler)

-- A `Response`, as `merge` reads it, and what it makes of a reply.
pub record Response : Type 0 where
  pub body : List ℕ
  pub status : ℕ
  pub content_type : Text
  pub headers : List (Text × Text)

-- `{**outer, **inner}`
abbrev pub set_header : Text → Text → List (Text × Text) → List (Text × Text)
set_header name value [] = (name, value) ∷ []
set_header name value ((n, v) ∷ hs) =
    if text_eq n name then (n, value) ∷ hs else (n, v) ∷ set_header name value hs

abbrev pub combined : List (Text × Text) → List (Text × Text) → List (Text × Text)
combined outer [] = outer
combined outer ((n, v) ∷ inner) = combined (set_header n v outer) inner

-- A value that middleware may find in a reply: a `Response`, or one still to be encoded.
pub data Value {ℓ} (V : Type ℓ) : Type ℓ where
  response : Response → Value V
  other : V → Value V

abbrev status_or : Option ℕ → ℕ → ℕ
status_or none n = n
status_or (some k) n = k

unfoldable pub merge {ℓ} : {V : Type ℓ} → Reply (Value V) → Value V × Option ℕ × List (Text × Text)
merge r = elim r.value [
  | response p ↦ (
    response (record {
      body = p.body;
      status = status_or r.status p.status;
      content_type = p.content_type;
      headers = combined p.headers r.headers;
    }),
    none,
    [],
  )
  | other v ↦ (other v, r.status, r.headers)
]
