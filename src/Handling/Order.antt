-- ===== src/Handling/Order.antt =====
-- The order in which the parts of a route run, seen by middleware that logs.
use oxbrook.Prelude.{
  ℕ, ◌≡◌, refl, Bool, true, false, Option, some, List, [], ◌∷◌, ◌++◌, append_assoc, append-nil,
  subst, ap, sym, ◌∙◌,
}
use oxbrook.Handling.Exceptions.{
  Raised, is_a, exception_class, find, Reply, Answer, reply, Outcome, answered, raised, Run,
  Handlers, guard,
}
use oxbrook.Handling.Middleware.{Call, Middleware, wrap, wrap-cons, link, endpoint, as_reply}
use oxbrook.Handling.Compose.{Gate, around, layer, returning, returned, compose}

pub data Event : Type 0 where
  enter leave : ℕ → Event
  body : Event

abbrev pub enters : List ℕ → List Event
enters [] = []
enters (k ∷ ks) = enter k ∷ enters ks

abbrev pub leaves : List ℕ → List Event
leaves [] = []
leaves (k ∷ ks) = leaves ks ++ leave k ∷ []

enters-append : (ks js : List ℕ) → enters (ks ++ js) ≡ enters ks ++ enters js
enters-append [] js = refl
enters-append (k ∷ ks) js = ap (◌∷◌ (enter k)) (enters-append ks js)

nested :
    (s mid : List Event) (k : ℕ) (ks : List ℕ)
    → ((s ++ enter k ∷ []) ++ (enters ks ++ (mid ++ leaves ks))) ++ leave k ∷ []
      ≡ s ++ (enter k ∷ (enters ks ++ (mid ++ (leaves ks ++ leave k ∷ []))))
nested s mid k ks =
    ap (λ x. x ++ leave k ∷ []) (append_assoc s (enter k ∷ []) (enters ks ++ (mid ++ leaves ks)))
    ∙ append_assoc s (enter k ∷ (enters ks ++ (mid ++ leaves ks))) (leave k ∷ [])
    ∙ ap (λ x. s ++ (enter k ∷ x))
        (append_assoc (enters ks) (mid ++ leaves ks) (leave k ∷ [])
          ∙ ap (◌++◌ (enters ks)) (append_assoc mid (leaves ks) (leave k ∷ [])))

abbrev left {ℓ} :
    {V : Type ℓ} → ℕ → List Event × Outcome (Reply V) → List Event × Outcome (Answer V)
left k (s, answered r) = (s ++ leave k ∷ [], answered (reply r))
left k (s, raised e) = (s, raised e)

module _ {ℓ κ} {R : Type ℓ} {V : Type κ} where
  -- Middleware that logs, calls the next link, and logs again.
  abbrev pub tracing : ℕ → Middleware R (List Event) V
  tracing k nxt request s = left k (nxt request (s ++ enter k ∷ []))

  -- A gate that does not admit a request: it raises.
  abbrev pub refusing : Raised → Middleware R (List Event) V
  refusing e nxt request s = (s, raised e)

  -- The exception is mapped to an answer, and nothing is logged for it.
  abbrev pub IsMapped :
      (R → List Event → List Event)
      → Handlers R (List Event) V
      → Raised
      → Answer V
      → R
      → Type (ℓ ⊔ κ)
  IsMapped drop_after hs e a request =
      (is_a exception_class e ≡ true)
      × (h : Raised → Run R (List Event) (Answer V)) × (find hs e ≡ some h)
      × ((s : List Event) → h e request (drop_after request s) ≡ (s, answered a))

  -- A handler that logs and returns.
  abbrev pub target : Answer V → Run R (List Event) (Answer V)
  target a request s = (s ++ body ∷ [], answered a)

  abbrev pub logs : List ℕ → List (Middleware R (List Event) V)
  logs [] = []
  logs (k ∷ ks) = tracing k ∷ logs ks

  module _ (drop_after : R → List Event → List Event) (hs : Handlers R (List Event) V) where
    -- What runs inside answers, and adds `mid` to the log.
    abbrev Adds : Call R (List Event) V → R → List Event → Reply V → Type κ
    Adds call request mid v = (s : List Event) → call request s ≡ (s ++ mid, answered v)

    wrap-Adds :
        (t : Run R (List Event) (Answer V)) (ks : List ℕ)
        (rest : List (Middleware R (List Event) V)) (request : R) (mid : List Event) (v : Reply V)
        → Adds (wrap (guard drop_after t hs) rest (around drop_after hs)) request mid v
        → Adds
            (wrap (guard drop_after t hs) (logs ks ++ rest) (around drop_after hs))
            request
            (enters ks ++ (mid ++ leaves ks))
            v
    unfolding wrap endpoint guard around link
    wrap-Adds t [] rest request mid v h s = rw (append-nil mid) (h s)
    wrap-Adds t (k ∷ ks) rest request mid v h s =
        rw (wrap-cons (guard drop_after t hs) (tracing k) (logs ks ++ rest) (around drop_after hs))
          (rw (wrap-Adds t ks rest request mid v h (s ++ enter k ∷ []))
            (ap (λ l. (l, answered v)) (nested s mid k ks)))

    refusing_runs :
        (e : Raised) (a : Answer V) (t : Run R (List Event) (Answer V))
        (ms : List (Middleware R (List Event) V)) (request : R)
        → IsMapped drop_after hs e a request
        → Adds
            (wrap (guard drop_after t hs) (refusing e ∷ ms) (around drop_after hs))
            request
            []
            (as_reply a)
    unfolding wrap endpoint guard around link
    refusing_runs e a t ms request (known, h, found, answers) s =
        rw (wrap-cons (guard drop_after t hs) (refusing e) ms (around drop_after hs))
          (rw (known, found, answers s, append-nil s) refl)

    target_runs :
        (a : Answer V) (request : R)
        → Adds
            (wrap (guard drop_after (target a) hs) [] (around drop_after hs))
            request
            (body ∷ [])
            (as_reply a)
    unfolding wrap endpoint guard
    target_runs a request s = refl

    logs-append : (ks js : List ℕ) → logs (ks ++ js) ≡ logs ks ++ logs js
    logs-append [] js = refl
    logs-append (k ∷ ks) js = ap (◌∷◌ (tracing k)) (logs-append ks js)

    logs_run :
        (ks : List ℕ) (a : Answer V) (request : R)
        → Adds
            (wrap (guard drop_after (target a) hs) (logs ks) (around drop_after hs))
            request
            (enters ks ++ (body ∷ leaves ks))
            (as_reply a)
    logs_run ks a request =
        subst
          (λ ms.
            Adds (wrap (guard drop_after (target a) hs) ms (around drop_after hs)) request
              (enters ks ++ (body ∷ leaves ks)) (as_reply a))
          (append-nil (logs ks))
          (wrap-Adds (target a) ks [] request (body ∷ []) (as_reply a) (target_runs a request))

    -- What a layer answers, with the gate's link still to be put for `m`.
    abbrev layered :
        Run R (List Event) (Answer V)
        → ℕ
        → List ℕ
        → List (Middleware R (List Event) V)
        → R
        → Middleware R (List Event) V
        → List Event × Outcome (Answer V)
    layered t k app inner request m =
        returning drop_after
          (wrap (guard drop_after t hs) (tracing k ∷ (logs app ++ m ∷ inner))
            (around drop_after hs))
          request []

    layered-order :
        (a : Answer V) (g k : ℕ) (app inner : List ℕ) (request : R)
        → layered (target a) k app (logs inner) request (tracing g) ≡ (
          enters (k ∷ (app ++ g ∷ inner)) ++ (body ∷ leaves (k ∷ (app ++ g ∷ inner))),
          answered (reply (as_reply a)),
        )
    layered-order a g k app inner request =
        ap
          (λ ms.
            returning drop_after (wrap (guard drop_after (target a) hs) ms (around drop_after hs))
              request [])
          (sym (logs-append (k ∷ app) (g ∷ inner)))
        ∙ ap returned (logs_run (k ∷ (app ++ g ∷ inner)) a request [])

    layered-refused :
        (t : Run R (List Event) (Answer V)) (e : Raised) (a : Answer V) (k : ℕ) (app : List ℕ)
        (inner : List (Middleware R (List Event) V)) (request : R)
        → IsMapped drop_after hs e a request
        → layered t k app inner request (refusing e)
          ≡ (enters (k ∷ app) ++ leaves (k ∷ app), answered (reply (as_reply a)))
    layered-refused t e a k app inner request m = ap returned (
        wrap-Adds t (k ∷ app) (refusing e ∷ inner) request [] (as_reply a)
          (refusing_runs e a t inner request m) [])

    -- On an authenticated route of an app with middleware, and on its socket's upgrade, a request
    -- goes through the app's middleware, the gate, the routers' middleware and the handler, each
    -- in the order of registration, and its reply comes back through them in reverse.
    pub compose-order :
        (a : Answer V) (gate : Gate R (List Event) V) (g k : ℕ) (app inner : List ℕ)
        (shared : Option (Middleware R (List Event) V)) (mapped socket : Bool)
        → gate.middleware ≡ tracing g
        → gate.socket_middleware ≡ tracing g
        → (request : R)
        → compose drop_after
            (target a)
            (some gate)
            shared
            (logs (k ∷ app))
            (logs inner)
            mapped
            hs
            socket
            request
            []
          ≡ (
            enters (k ∷ (app ++ g ∷ inner)) ++ (body ∷ leaves (k ∷ (app ++ g ∷ inner))),
            answered (reply (as_reply a)),
          )
    unfolding compose layer
    compose-order a gate g k app inner shared mapped true hm hk request =
        ap (layered (target a) k app (logs inner) request) hk
        ∙ layered-order a g k app inner request
    compose-order a gate g k app inner shared mapped false hm hk request =
        ap (layered (target a) k app (logs inner) request) hm
        ∙ layered-order a g k app inner request

    -- A gate that raises keeps the request from the routers' middleware and the handler, whatever
    -- these are, and the app's middleware sees the answer that the exception is mapped to. A
    -- function is registered for the exception, and answers.
    pub compose-refused :
        (t : Run R (List Event) (Answer V)) (gate : Gate R (List Event) V) (e : Raised)
        (a : Answer V) (k : ℕ) (app : List ℕ) (inner : List (Middleware R (List Event) V))
        (shared : Option (Middleware R (List Event) V)) (mapped socket : Bool)
        → gate.middleware ≡ refusing e
        → gate.socket_middleware ≡ refusing e
        → (request : R) → IsMapped drop_after hs e a request
        → compose drop_after t (some gate) shared (logs (k ∷ app)) inner mapped hs socket request []
          ≡ (enters (k ∷ app) ++ leaves (k ∷ app), answered (reply (as_reply a)))
    unfolding compose layer
    compose-refused t gate e a k app inner shared mapped true hm hk request m =
        ap (layered t k app inner request) hk ∙ layered-refused t e a k app inner request m
    compose-refused t gate e a k app inner shared mapped false hm hk request m =
        ap (layered t k app inner request) hm ∙ layered-refused t e a k app inner request m
