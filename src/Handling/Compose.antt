-- ===== src/Handling/Compose.antt =====
-- `App._layer`, `App._compose` and `App._tool_target` of python/oxbrook/_app.py.
--
-- The links that authentication and shared limits put in a chain come from other modules; they are
-- middleware that the caller gives.
use oxbrook.Prelude.{Bool, true, false, Option, none, some, List, [], ◌∷◌, ◌++◌, if◌then◌else◌}
use oxbrook.Handling.Exceptions.{
  Reply, Answer, reply, Outcome, answered, raised, Run, Handlers, guard,
}
use oxbrook.Handling.Middleware.{replied, Call, Middleware, wrap}

-- `_auth.Gate` in its three forms.
pub record Gate {ℓ κ μ} (R : Type ℓ) (S : Type κ) (V : Type μ) : Type (ℓ ⊔ κ ⊔ μ) where
  pub wrapped : Run R S (Answer V) → Run R S (Answer V)
  pub middleware : Middleware R S V
  pub socket_middleware : Middleware R S V

abbrev pub returned {ℓ κ} :
    {S : Type κ} {V : Type ℓ} → S × Outcome (Reply V) → S × Outcome (Answer V)
returned (s, answered r) = (s, answered (reply r))
returned (s, raised e) = (s, raised e)

abbrev pub is_empty {ℓ} : {A : Type ℓ} → List A → Bool
is_empty [] = true
is_empty (_ ∷ _) = false

module _ {ℓ κ μ} {R : Type ℓ} {S : Type κ} {V : Type μ} (drop_after : R → S → S) where
  abbrev pub returning : Call R S V → Run R S (Answer V)
  returning call request s = returned (call request s)

  -- `around` of `_layer`
  unfoldable pub around : Handlers R S V → Call R S V → Call R S V
  around hs call request s = replied (guard drop_after (returning call) hs request s)

  unfoldable pub layer :
      Run R S (Answer V) → List (Middleware R S V) → Handlers R S V → Run R S (Answer V)
  layer target [] hs = guard drop_after target hs
  layer target (m ∷ ms) hs = returning (wrap (guard drop_after target hs) (m ∷ ms) (around hs))

  -- `inner` is the route's middleware, `app` the app's, `mapped` whether either has exception
  -- handlers, `shared` the link of the shared limits, if there are any.
  unfoldable pub compose :
      Run R S (Answer V)
      → Option (Gate R S V)
      → Option (Middleware R S V)
      → List (Middleware R S V)
      → List (Middleware R S V)
      → Bool
      → Handlers R S V
      → Bool
      → Run R S (Answer V)
  compose target none (some shared) app inner mapped hs socket =
      layer target (app ++ shared ∷ inner) hs
  compose target none none app inner mapped hs socket =
      if is_empty (app ++ inner)
      then (if mapped then layer target [] hs else target)
      else layer target (app ++ inner) hs
  compose target (some gate) shared app inner mapped hs socket =
      if socket
      then layer target (app ++ gate.socket_middleware ∷ inner) hs
      else if is_empty (app ++ inner)
      then (if mapped then layer target (gate.middleware ∷ []) hs else gate.wrapped target)
      else layer target (app ++ gate.middleware ∷ inner) hs

  -- Called as a tool: not the app's middleware, and `forget` where there is no gate.
  unfoldable pub tool_target :
      Run R S (Answer V)
      → Option (Gate R S V)
      → Middleware R S V
      → List (Middleware R S V)
      → Handlers R S V
      → Run R S (Answer V)
  tool_target target none forget inner hs = layer target (forget ∷ inner) hs
  tool_target target (some gate) forget inner hs = layer target (gate.middleware ∷ inner) hs
