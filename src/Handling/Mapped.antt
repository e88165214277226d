-- ===== src/Handling/Mapped.antt =====
-- No exception that has a handler gets past the exception mapping.
use oxbrook.Prelude.{
  ℕ, ◌≡◌, refl, Bool, true, false, inl, inr, Option, none, some, List, [], ◌∷◌, All, Bool-cases,
  if◌then◌else◌, subst, sym, ◌==◌,
}
use oxbrook.Handling.Exceptions.{
  Raised, Answer, Outcome, answered, raised, Run, Handlers, lookup, or_else, find_in, find, is_a,
  exception_class, http_error_class, guard, catch, answer_raised, handle, fall_back, Reply,
}
use oxbrook.Handling.Middleware.{Middleware, wrap, wrap-cons, link, endpoint, replied}
use oxbrook.Handling.Compose.{around, layer, returned}

abbrev pub IsAnswer {ℓ} : {B : Type ℓ} → Outcome B → Type 0
IsAnswer (answered _) = Unit
IsAnswer (raised _) = ⊥

-- An answer, or an `HTTPError`.
abbrev pub Settled {ℓ} : {B : Type ℓ} → Outcome B → Type 0
Settled (answered _) = Unit
Settled (raised e) = is_a http_error_class e ≡ true

module _ {ℓ κ μ} {R : Type ℓ} {S : Type κ} {V : Type μ} where
  -- An answer, or an exception that the handlers do not catch.
  abbrev pub Mapped {ν} : {B : Type ν} → Handlers R S V → Outcome B → Type (ℓ ⊔ κ ⊔ μ)
  Mapped hs (answered _) = Unit
  Mapped hs (raised e) = (if is_a exception_class e then find hs e else none) ≡ none

  abbrev pub Settles : ℕ × (Raised → Run R S (Answer V)) → Type (ℓ ⊔ κ)
  Settles (c, h) = (e : Raised) (request : R) (s : S) → Settled (h e request s).1

  -- What the handlers of an `HTTPError` do.
  abbrev pub Answers : Handlers R S V → Type (ℓ ⊔ κ ⊔ μ)
  Answers hs =
      (e : Raised) (h : Raised → Run R S (Answer V))
      → is_a http_error_class e ≡ true
      → find hs e ≡ some h
      → (request : R) (s : S) → IsAnswer (h e request s).1

  -- What is found, if anything is, settles.
  abbrev FoundSettles : Option (Raised → Run R S (Answer V)) → Type (ℓ ⊔ κ)
  FoundSettles none = Unit
  FoundSettles (some h) = (e : Raised) (request : R) (s : S) → Settled (h e request s).1

  lookup-Settles : (c : ℕ) (hs : Handlers R S V) → All Settles hs → FoundSettles (lookup c hs)
  lookup-Settles c [] a = tt
  lookup-Settles c ((d, g) ∷ hs) (b, a) = elim (Bool-cases (c == d)) [
    | inl e ↦ rw e b
    | inr e ↦ rw e (lookup-Settles c hs a)
  ]

  or_else-Settles :
      (o p : Option (Raised → Run R S (Answer V)))
      → FoundSettles o
      → FoundSettles p
      → FoundSettles (or_else o p)
  or_else-Settles none p f g = g
  or_else-Settles (some h) p f g = f

  find_in-Settles :
      (hs : Handlers R S V) (cs : List ℕ) → All Settles hs → FoundSettles (find_in hs cs)
  unfolding find_in
  find_in-Settles hs [] a = tt
  find_in-Settles hs (c ∷ cs) a =
      or_else-Settles (lookup c hs) (find_in hs cs) (lookup-Settles c hs a)
        (find_in-Settles hs cs a)

  if_FoundSettles :
      (b : Bool) (o : Option (Raised → Run R S (Answer V)))
      → FoundSettles o
      → FoundSettles (if b then o else none)
  if_FoundSettles true o f = f
  if_FoundSettles false o f = tt

  answer-Mapped : (hs : Handlers R S V) (o : Outcome (Answer V)) → IsAnswer o → Mapped hs o
  answer-Mapped hs (answered a) i = tt
  answer-Mapped hs (raised e) i = absurd i

  none-Mapped :
      (hs : Handlers R S V) (e : Raised) → find hs e ≡ none → Mapped {B = Answer V} hs (raised e)
  none-Mapped hs e n =
      rw n (elim (Bool-cases (is_a exception_class e)) [ inl b ↦ rw b refl | inr b ↦ rw b refl ])

module _ {ℓ κ μ} {R : Type ℓ} {S : Type κ} {V : Type μ} (drop_after : R → S → S) where
  fall_back-Mapped :
      (hs : Handlers R S V) (e : Raised) (request : R) (s : S)
      (o : Option (Raised → Run R S (Answer V)))
      → find hs e ≡ o
      → Answers hs
      → is_a http_error_class e ≡ true
      → Mapped hs (fall_back drop_after o e request s).1
  fall_back-Mapped hs e request s none f k c = none-Mapped hs e f
  fall_back-Mapped hs e request s (some h) f k c =
      answer-Mapped hs (h e request s).1 (k e h c f request s)

  answer_raised-Mapped :
      (hs : Handlers R S V) (request : R) (o : S × Outcome (Answer V))
      → Answers hs
      → Settled o.1
      → Mapped hs (answer_raised drop_after hs request o).1
  answer_raised-Mapped hs request (s, answered a) k c = tt
  answer_raised-Mapped hs request (s, raised e) k c =
      subst (λ b. Mapped hs (fall_back drop_after (if b then find hs e else none) e request s).1)
        (sym c) (fall_back-Mapped hs e request s (find hs e) refl k c)

  handle-Mapped :
      (hs : Handlers R S V) (e : Raised) (request : R) (s : S)
      (o : Option (Raised → Run R S (Answer V)))
      → FoundSettles o
      → (o ≡ none → Mapped {B = Answer V} hs (raised e))
      → Answers hs
      → Mapped hs (handle drop_after hs o e request s).1
  handle-Mapped hs e request s none f n k = n refl
  handle-Mapped hs e request s (some h) f n k =
      answer_raised-Mapped hs request (h e request (drop_after request s)) k
        (f e request (drop_after request s))

  catch-Mapped :
      (hs : Handlers R S V) (request : R) (o : S × Outcome (Answer V))
      → All Settles hs
      → Answers hs
      → Mapped hs (catch drop_after hs request o).1
  catch-Mapped hs request (s, answered a) a' k = tt
  catch-Mapped hs request (s, raised e) a k =
      handle-Mapped hs e request s (if is_a exception_class e then find hs e else none)
        (if_FoundSettles (is_a exception_class e) (find hs e) (find_in-Settles hs e.mro a)) (λ n. n)
        k

  replied-Mapped :
      (hs : Handlers R S V) (o : S × Outcome (Answer V)) → Mapped hs o.1 → Mapped hs (replied o).1
  replied-Mapped hs (s, answered a) m = tt
  replied-Mapped hs (s, raised e) m = m

  returned-Mapped :
      (hs : Handlers R S V) (o : S × Outcome (Reply V)) → Mapped hs o.1 → Mapped hs (returned o).1
  returned-Mapped hs (s, answered a) m = tt
  returned-Mapped hs (s, raised e) m = m

  -- What every middleware is given by call_next is a reply, or an exception that no handler maps,
  -- where the handlers answer or raise an HTTPError and those of an HTTPError answer.
  pub call_next-Mapped :
      (hs : Handlers R S V) (target : Run R S (Answer V)) (ms : List (Middleware R S V))
      → All Settles hs
      → Answers hs
      → (request : R) (s : S)
      → Mapped hs (wrap (guard drop_after target hs) ms (around drop_after hs) request s).1
  unfolding wrap endpoint guard around
  call_next-Mapped hs target [] a k request s =
      replied-Mapped hs (catch drop_after hs request (target request s))
        (catch-Mapped hs request (target request s) a k)
  call_next-Mapped hs target (m ∷ ms) a k request s =
      let inner = link m (wrap (guard drop_after target hs) ms (around drop_after hs)) in
      rw (wrap-cons (guard drop_after target hs) m ms (around drop_after hs)) (
        replied-Mapped hs (catch drop_after hs request (returned (inner request s)))
          (catch-Mapped hs request (returned (inner request s)) a k))

  -- What a handler and its middleware give together is an answer, or an exception that no handler
  -- maps, where the handlers answer or raise an HTTPError and those of an HTTPError answer.
  pub layer-Mapped :
      (hs : Handlers R S V) (target : Run R S (Answer V)) (ms : List (Middleware R S V))
      → All Settles hs
      → Answers hs
      → (request : R) (s : S) → Mapped hs (layer drop_after target ms hs request s).1
  unfolding layer guard
  layer-Mapped hs target [] a k request s = catch-Mapped hs request (target request s) a k
  layer-Mapped hs target (m ∷ ms) a k request s =
      returned-Mapped hs
        (wrap (guard drop_after target hs) (m ∷ ms) (around drop_after hs) request s)
        (call_next-Mapped hs target (m ∷ ms) a k request s)
