-- ===== src/Prelude/Dicts.antt =====
-- Python's dictionaries with numbers for keys, in the order of insertion.
use Prim.Native.Nat.{ℕ, zero, suc, ◌≤◌}
use mathlib.Core.Path.{◌≡◌, refl, sym, ap, subst}
use mathlib.Core.Logic.{inl, inr}
use mathlib.Core.Bool.{false}
use mathlib.Core.Option.{Option, none, some}
use mathlib.Core.List.{List, [], ◌∷◌}
use native.Mathlib.Omega.{arith}
use oxbrook.Prelude.Tests.{◌==◌, ==_iff, if◌then◌else◌, Bool-cases}
use oxbrook.Prelude.Lists.{length, take, drop, All}

abbrev pub Dict {ℓ} : Type ℓ → Type ℓ
Dict V = List (ℕ × V)

module _ {ℓ} {V : Type ℓ} where
  abbrev pub get : ℕ → Dict V → Option V
  get k [] = none
  get k ((j, v) ∷ d) = if j == k then some v else get k d

  abbrev pub pop : ℕ → Dict V → Dict V
  pop k [] = []
  pop k ((j, v) ∷ d) = if j == k then d else (j, v) ∷ pop k d

  -- A new key goes last; a present one keeps its place.
  abbrev pub put : ℕ → V → Dict V → Dict V
  put k v [] = (k, v) ∷ []
  put k v ((j, w) ∷ d) = if j == k then (j, v) ∷ d else (j, w) ∷ put k v d

  abbrev pub pop_each : List ℕ → Dict V → Dict V
  pop_each [] d = d
  pop_each (k ∷ ks) d = pop_each ks (pop k d)

  abbrev pub keys : Dict V → List ℕ
  keys [] = []
  keys ((k, _) ∷ d) = k ∷ keys d

  -- Each key stands once.
  abbrev pub Distinct : Dict V → Type ℓ
  Distinct [] = Unit
  Distinct ((k, v) ∷ d) = (get k d ≡ none) × Distinct d

  pub get-pop_other : (j k : ℕ) (d : Dict V) → (j == k) ≡ false → get k (pop j d) ≡ get k d
  get-pop_other j k [] h = refl
  get-pop_other j k ((i, v) ∷ d) h = ground (arith, get-pop_other j k d h)

  pub get-pop_absent : (j k : ℕ) (d : Dict V) → get k d ≡ none → get k (pop j d) ≡ none
  get-pop_absent j k [] h = refl
  get-pop_absent j k ((i, v) ∷ d) h = ground (arith, get-pop_absent j k d)

  pub get-pop_same : (k : ℕ) (d : Dict V) → Distinct d → get k (pop k d) ≡ none
  get-pop_same k [] h = refl
  get-pop_same k ((j, v) ∷ d) (p, h) = ground (arith, get-pop_same k d h)

  pub Distinct-pop : (k : ℕ) (d : Dict V) → Distinct d → Distinct (pop k d)
  Distinct-pop k [] h = h
  Distinct-pop k ((j, v) ∷ d) (p, h) = elim (Bool-cases (j == k)) [
    | inl e ↦ rw e h
    | inr e ↦ rw e (get-pop_absent k j d p, Distinct-pop k d h)
  ]

  pub Distinct-pop_each : (ks : List ℕ) (d : Dict V) → Distinct d → Distinct (pop_each ks d)
  Distinct-pop_each [] d h = h
  Distinct-pop_each (k ∷ ks) d h = Distinct-pop_each ks (pop k d) (Distinct-pop k d h)

  pub get-pop_each_absent :
      (ks : List ℕ) (k : ℕ) (d : Dict V) → get k d ≡ none → get k (pop_each ks d) ≡ none
  get-pop_each_absent [] k d h = h
  get-pop_each_absent (j ∷ ks) k d h = get-pop_each_absent ks k (pop j d) (get-pop_absent j k d h)

  pub get-put_same : (k : ℕ) (v : V) (d : Dict V) → get k (put k v d) ≡ some v
  get-put_same k v [] = ground arith
  get-put_same k v ((j, w) ∷ d) = ground (arith, get-put_same k v d)

  pub get-put_other :
      (j k : ℕ) (v : V) (d : Dict V) → (j == k) ≡ false → get k (put j v d) ≡ get k d
  get-put_other j k v [] h = ground arith
  get-put_other j k v ((i, w) ∷ d) h = ground (arith, get-put_other j k v d h)

  pub Distinct-put : (k : ℕ) (v : V) (d : Dict V) → Distinct d → Distinct (put k v d)
  Distinct-put k v [] h = (refl, tt)
  Distinct-put k v ((j, w) ∷ d) (p, h) = elim (Bool-cases (j == k)) [
    | inl e ↦ rw e (p, h)
    | inr e ↦ rw e (ground (arith, get-put_other k j v d), Distinct-put k v d h)
  ]

  pub length-put-le : (k : ℕ) (v : V) (d : Dict V) → length (put k v d) ≤ suc (length d)
  length-put-le k v [] = omega arith
  length-put-le k v ((j, w) ∷ d) = ground (arith, length-put-le k v d)

  pub length-pop-le : (k : ℕ) (d : Dict V) → length (pop k d) ≤ length d
  length-pop-le k [] = omega arith
  length-pop-le k ((j, v) ∷ d) = ground (arith, length-pop-le k d)

  pub length-pop_each-le : (ks : List ℕ) (d : Dict V) → length (pop_each ks d) ≤ length d
  length-pop_each-le [] d = omega arith
  length-pop_each-le (k ∷ ks) d = omega (arith, length-pop_each-le ks (pop k d), length-pop-le k d)

  -- Popping the first keys drops the first entries.
  pub pop_each-first : (n : ℕ) (d : Dict V) → pop_each (keys (take n d)) d ≡ drop n d
  pop_each-first zero d = refl
  pop_each-first (suc n) [] = refl
  pop_each-first (suc n) ((k, v) ∷ d) = ground (arith, pop_each-first n d)

-- A predicate of every entry.
module _ {ℓ κ} {V : Type ℓ} (P : ℕ × V → Type κ) where
  pub All-pop : (k : ℕ) (d : Dict V) → All P d → All P (pop k d)
  All-pop k [] h = h
  All-pop k ((j, v) ∷ d) (q, h) = ground (arith, h, q, All-pop k d h)

  pub All-pop_each : (ks : List ℕ) (d : Dict V) → All P d → All P (pop_each ks d)
  All-pop_each [] d h = h
  All-pop_each (k ∷ ks) d h = All-pop_each ks (pop k d) (All-pop k d h)

  pub All-put : (k : ℕ) (v : V) (d : Dict V) → P (k, v) → All P d → All P (put k v d)
  All-put k v [] p h = (p, tt)
  All-put k v ((j, w) ∷ d) p (q, h) = elim (Bool-cases (j == k)) [
    | inl e ↦
        let same : (k, v) ≡ (j, v) = ap (λ i. (i, v)) (sym ((==_iff j k).0 e)) in
        rw e (subst P same p, h)
    | inr e ↦ rw e (q, All-put k v d p h)
  ]

  pub All-get : (k : ℕ) (v : V) (d : Dict V) → All P d → get k d ≡ some v → P (k, v)
  All-get k v [] h e = absurd cc
  All-get k v ((j, w) ∷ d) (q, h) e = elim (Bool-cases (j == k)) [
    | inl b ↦ let same : (j, w) ≡ (k, v) = ground (arith, ==_iff j k) in subst P same q
    | inr b ↦ All-get k v d h (ground arith)
  ]
