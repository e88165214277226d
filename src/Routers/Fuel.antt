-- ===== src/Routers/Fuel.antt =====
-- `_flatten` (python/oxbrook/_routers.py) ends: on any finite set of routers, whatever they include,
-- and cycles among them are refused and not followed.
use oxbrook.Prelude.{
  value_error, true, Bool, ◌⊎◌, Result, ok, raise, Error, ==_iff, ℕ, zero, suc, ◌≤◌, ◌<◌, ◌≡◌, refl,
  false, ◌||◌, List, [], ◌∷◌, ◌++◌, ◌==◌, if◌then◌else◌, Text, arith, All, ◌≢◌, Bool-cases, inl,
  inr,
}
use oxbrook.Routers.Declare.{Router, Builds}
use oxbrook.Routers.Flatten.{
  prepend, done, and_then, own_routes, Route, Context, member, inside, under, Outcome, exhausted,
  each_child, flatten,
}

-- How many of the first `n` routers are not in the list.
abbrev pub unseen : ℕ → List ℕ → ℕ
unseen zero seen = 0
unseen (suc n) seen = if member n seen then unseen n seen else suc (unseen n seen)

member-snoc : (x y : ℕ) (l : List ℕ) → member x (l ++ y ∷ []) ≡ (member x l || x == y)
member-snoc x y [] = ground arith
member-snoc x y (z ∷ l) = ground (arith, member-snoc x y l)

unseen_same : (n y : ℕ) (l : List ℕ) → n ≤ y → unseen n (l ++ y ∷ []) ≡ unseen n l
unseen_same zero y l h = refl
unseen_same (suc n) y l h = ground (arith, member-snoc n y l, unseen_same n y l)

unseen_less :
    (n y : ℕ) (l : List ℕ) → y < n → member y l ≡ false → unseen n l ≡ suc (unseen n (l ++ y ∷ []))
unseen_less zero y l h m = absurd (omega arith)
unseen_less (suc n) y l h m =
    ground (arith, member-snoc n y l, unseen_same n y l, unseen_less n y l)

-- Every router that the first `n` include is one of them.
abbrev pub IsClosed : ℕ → (ℕ → Router) → Type 0
IsClosed n store = (r : ℕ) → All (λ c. c.0 < n) (store r).children

each_child_ends :
    (visit : ℕ → Context → Outcome (List Route)) (n : ℕ) (c : Context) (children : List (ℕ × Text))
    → ((r : ℕ) (p : Text) → r < n → visit r (under p c) ≢ exhausted)
    → All (λ k. k.0 < n) children
    → each_child visit c children ≢ exhausted
unfolding each_child
each_child_ends visit n c [] h a = λ e. cc
each_child_ends visit n c ((r, p) ∷ rest) h (b, a) =
    ground (arith, h r p b, each_child_ends visit n c rest h a)

flatten_ends :
    (n : ℕ) (store : ℕ → Router) (builds : Builds) (fuel self : ℕ) (c : Context)
    → IsClosed n store
    → self < n
    → unseen n c.seen < fuel
    → flatten store builds fuel self c ≢ exhausted
unfolding flatten inside
flatten_ends n store builds zero self c k s h = absurd (omega arith)
flatten_ends n store builds (suc fuel) self c k s h = elim (Bool-cases (member self c.seen)) [
  | inl again ↦ rw again (λ e. cc)
  | inr fresh ↦
      let inner = inside self (store self) c in
      let ended : each_child (flatten store builds fuel) inner (store self).children ≢ exhausted =
        each_child_ends (flatten store builds fuel) n inner (store self).children
          (λ r p b.
            flatten_ends n store builds fuel r (under p inner) k b
              (omega (arith, unseen_less n self c.seen s fresh)))
          (k self) in
      rw fresh (ground (arith, ended))
]

abbrev includes : ℕ → List (ℕ × Text) → Bool
includes k [] = false
includes k ((r, p) ∷ rest) = k == r || includes k rest

-- Routers of which each is included by the one before it, the first by `r`.
abbrev pub IsWalk : (ℕ → Router) → ℕ → List ℕ → Type 0
IsWalk store r [] = Unit
IsWalk store r (k ∷ ks) = (includes k (store r).children ≡ true) × IsWalk store k ks

-- Routers of which none was seen and none stands twice.
abbrev pub IsFresh : List ℕ → List ℕ → Type 0
IsFresh seen [] = Unit
IsFresh seen (k ∷ ks) = (member k seen ≡ false) × IsFresh (seen ++ k ∷ []) ks

each_child_ok :
    (visit : ℕ → Context → Outcome (List Route)) (c : Context) (children : List (ℕ × Text))
    (rs : List Route) (k : ℕ)
    → each_child visit c children ≡ done (ok rs)
    → includes k children ≡ true
    → (p : Text) × (own : List Route) × (visit k (under p c) ≡ done (ok own))
unfolding each_child
each_child_ok visit c [] rs k h i = absurd cc
each_child_ok visit c ((r, p) ∷ rest) rs k h i =
    go (visit r (under p c)) (each_child visit c rest) refl refl h (each_child_ok visit c rest)
  where
    go :
        (o q : Outcome (List Route))
        → visit r (under p c) ≡ o
        → each_child visit c rest ≡ q
        → and_then o q ≡ done (ok rs)
        → ((rs : List Route) (k : ℕ)
            → each_child visit c rest ≡ done (ok rs)
            → includes k rest ≡ true
            → (p : Text) × (own : List Route) × (visit k (under p c) ≡ done (ok own)))
        → (p : Text) × (own : List Route) × (visit k (under p c) ≡ done (ok own))
    go exhausted q e f h ih = absurd cc
    go (done (raise x)) q e f h ih = absurd cc
    go (done (ok xs)) exhausted e f h ih = absurd cc
    go (done (ok xs)) (done (raise x)) e f h ih = absurd cc
    go (done (ok xs)) (done (ok ys)) e f h ih = elim (Bool-cases (k == r)) [
      | inl same ↦ (p, xs, rw ((==_iff k r).0 same) e)
      | inr other ↦ ih ys k f (ground (arith, i, other))
    ]

prepend_ok :
    (own : Result (List Route)) (nested : Outcome (List Route)) (rs : List Route)
    → prepend own nested ≡ done (ok rs)
    → (ns : List Route) × (nested ≡ done (ok ns))
prepend_ok (raise e) nested rs h = absurd cc
prepend_ok (ok xs) exhausted rs h = absurd cc
prepend_ok (ok xs) (done (raise e)) rs h = absurd cc
prepend_ok (ok xs) (done (ok ys)) rs h = (ys, refl)

-- Routes come only of a router that was not seen, whose children all gave theirs.
flatten_ok :
    (store : ℕ → Router) (builds : Builds) (fuel self : ℕ) (c : Context) (rs : List Route)
    → flatten store builds (suc fuel) self c ≡ done (ok rs)
    → (member self c.seen ≡ false)
      × (ns : List Route) × (each_child
            (flatten store builds fuel)
            (inside self (store self) c)
            (store self).children
          ≡ done (ok ns))
unfolding flatten
flatten_ok store builds fuel self c rs h = go (member self c.seen) refl h
  where
    inner : Context
    inner = inside self (store self) c

    go :
        (b : Bool)
        → member self c.seen ≡ b
        → (if b
            then done (raise value_error)
            else prepend
                (own_routes builds inner (store self).declared)
                (each_child (flatten store builds fuel) inner (store self).children))
          ≡ done (ok rs)
        → (member self c.seen ≡ false)
          × (ns : List Route) × (each_child (flatten store builds fuel) inner (store self).children
              ≡ done (ok ns))
    go true m h = absurd cc
    go false m h =
        let (ns, all) =
          prepend_ok (own_routes builds inner (store self).declared)
            (each_child (flatten store builds fuel) inner (store self).children) rs h in
        (m, ns, all)

flatten_zero :
    (store : ℕ → Router) (builds : Builds) (self : ℕ) (c : Context) (r : Result (List Route))
    → flatten store builds 0 self c ≢ done r
unfolding flatten
flatten_zero store builds self c r h = cc

flatten-IsFresh :
    (store : ℕ → Router) (builds : Builds) (fuel self : ℕ) (c : Context) (rs : List Route)
    (ks : List ℕ)
    → IsWalk store self ks
    → flatten store builds fuel self c ≡ done (ok rs)
    → IsFresh c.seen (self ∷ ks)
unfolding inside
flatten-IsFresh store builds zero self c rs ks w h =
    absurd (flatten_zero store builds self c (ok rs) h)
flatten-IsFresh store builds (suc fuel) self c rs [] w h =
    ((flatten_ok store builds fuel self c rs h).0, tt)
flatten-IsFresh store builds (suc fuel) self c rs (k ∷ ks) (i, w) h =
    let (m, ns, all) = flatten_ok store builds fuel self c rs h in
    let inner = inside self (store self) c in
    let (p, own, e) =
      each_child_ok (flatten store builds fuel) inner (store self).children ns k all i in
    (m, flatten-IsFresh store builds fuel k (under p inner) own ks w e)

-- With as much fuel as there are routers left to see, flattening a tree of routers ends, with the
-- exception that Python raises or with the routes; and with the routes only where no chain of
-- includes comes to a router twice: a cycle of includes is refused.
pub flatten_total :
    (n : ℕ) (store : ℕ → Router) (builds : Builds) (fuel self : ℕ) (c : Context) (ks : List ℕ)
    → IsClosed n store
    → self < n
    → unseen n c.seen < fuel
    → IsWalk store self ks
    → ((e : Error) × (flatten store builds fuel self c ≡ done (raise e)))
      ⊎ ((rs : List Route) × (flatten store builds fuel self c ≡ done (ok rs))
          × IsFresh c.seen (self ∷ ks))
flatten_total n store builds fuel self c ks k s h w =
    go (flatten store builds fuel self c) refl (flatten_ends n store builds fuel self c k s h)
  where
    go :
        (o : Outcome (List Route))
        → flatten store builds fuel self c ≡ o
        → flatten store builds fuel self c ≢ exhausted
        → ((e : Error) × (flatten store builds fuel self c ≡ done (raise e)))
          ⊎ ((rs : List Route) × (flatten store builds fuel self c ≡ done (ok rs))
              × IsFresh c.seen (self ∷ ks))
    go exhausted e t = absurd (t e)
    go (done (raise x)) e t = inl (x, e)
    go (done (ok rs)) e t = inr (rs, e, flatten-IsFresh store builds fuel self c rs ks w e)
