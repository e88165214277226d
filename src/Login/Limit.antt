-- ===== src/Login/Limit.antt =====
-- How many logins `_begin` keeps in progress.
use oxbrook.Prelude.{
  ℕ, zero, suc, ◌+◌, ◌-◌, ◌≤◌, ◌≡◌, ◌⊎◌, inl, inr, refl, ap, Bool, true, false, Option, some, [],
  ◌∷◌, ◌==◌, ltb, if◌then◌else◌, length, arith, Bool-cases,
}
use oxbrook.Prelude.Dicts.{Dict, get, pop, put}
use oxbrook.Login.Begin.{
  Entry, pending_limit, Session, stored_as, older, drop_oldest, trim, begin, pending,
}

length-pop :
    {A : Type 0} (k : ℕ) (v : A) (d : Dict A) → get k d ≡ some v → suc (length (pop k d)) ≡ length d
length-pop k v [] h = absurd cc
length-pop k v ((j, w) ∷ d) h = ground (arith, h, length-pop k v d)

-- A key that stands in a dictionary.
abbrev IsHeld : ℕ → Dict Entry → Type 0
IsHeld k d = (v : Entry) × (get k d ≡ some v)

IsHeld-here : (k j : ℕ) (w : Entry) (d : Dict Entry) → k ≡ j → IsHeld k ((j, w) ∷ d)
IsHeld-here k j w d e = (w, ground (arith, e))

IsHeld-there : (k j : ℕ) (w : Entry) (d : Dict Entry) → IsHeld k d → IsHeld k ((j, w) ∷ d)
IsHeld-there k j w d (v, h) = elim (Bool-cases (j == k)) [
  | inl e ↦ (w, rw e refl)
  | inr e ↦ (v, rw e h)
]

-- The oldest is one of them.
older-IsHeld :
    (state began : ℕ) (p : Dict Entry)
    → (older state began p ≡ state) ⊎ IsHeld (older state began p) p
older-IsHeld state began [] = inl refl
older-IsHeld state began ((other, d) ∷ p) =
    go (ltb d.began began) (older-IsHeld other d.began p) (older-IsHeld state began p)
  where
    go :
        (b : Bool)
        → (older other d.began p ≡ other) ⊎ IsHeld (older other d.began p) p
        → (older state began p ≡ state) ⊎ IsHeld (older state began p) p
        → ((if b then older other d.began p else older state began p) ≡ state)
          ⊎ IsHeld (if b then older other d.began p else older state began p) ((other, d) ∷ p)
    go true (inl e) _ = inr (IsHeld-here (older other d.began p) other d p e)
    go true (inr h) _ = inr (IsHeld-there (older other d.began p) other d p h)
    go false _ (inl e) = inl e
    go false _ (inr h) = inr (IsHeld-there (older state began p) other d p h)

oldest-IsHeld :
    (state : ℕ) (e : Entry) (p : Dict Entry) → IsHeld (older state e.began p) ((state, e) ∷ p)
oldest-IsHeld state e p = elim (older-IsHeld state e.began p) [
  | inl q ↦ IsHeld-here (older state e.began p) state e p q
  | inr h ↦ IsHeld-there (older state e.began p) state e p h
]

length-drop_oldest : (p : Dict Entry) → length (drop_oldest p) ≡ length p - 1
length-drop_oldest [] = refl
length-drop_oldest ((state, e) ∷ p) =
    let (v, h) = oldest-IsHeld state e p in
    omega (arith, length-pop (older state e.began p) v ((state, e) ∷ p) h)

length-trim :
    (n : ℕ) (p : Dict Entry) → length p ≤ n + pending_limit → length (trim n p) ≤ pending_limit
length-trim zero p h = omega (arith, h)
length-trim (suc n) p h = ground (arith, h, length-drop_oldest p, length-trim n (drop_oldest p))

length-stored_as : (p : Dict Entry) → length (stored_as p) ≡ length p
length-stored_as [] = refl
length-stored_as ((state, e) ∷ p) = ap suc (length-stored_as p)

-- However many logins a browser begins, at most four are kept in its session.
pub begin-length :
    (now state : ℕ) (e : Entry) (s : Session)
    → (p : Dict (Option Entry)) × ((begin now state e s).stored ≡ some p)
      × (length p ≤ pending_limit)
unfolding begin
begin-length now state e s =
    let p = put state e (pending now s.stored) in
    (
      stored_as (trim (length p) p),
      refl,
      omega (arith, length-stored_as (trim (length p) p), length-trim (length p) p (omega arith)),
    )
