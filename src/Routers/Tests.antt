-- ===== src/Routers/Tests.antt =====
-- Routers at concrete values.
use oxbrook.Prelude.{
  List, Error, ok, raise, ◌⊎◌, ℕ, zero, suc, ◌<◌, All, ◌≡◌, refl, true, false, none, [], ◌∷◌, ◌++◌,
  codes, arith,
}
use oxbrook.Routers.Declare.{unset, Declared, Router, declare, Distinct, declare-Distinct}
use oxbrook.Routers.Flatten.{Context, Route, done, flatten}
use oxbrook.Routers.Fuel.{IsFresh, flatten_total}

abbrev reads_item : Declared
reads_item = record {
  method = codes "GET";
  path = codes "/{id}";
  fn = 0;
  tool = false;
  websocket = false;
  authorize = none;
  cancel_on_disconnect = false;
  blocking = false;
  auth = unset;
  rate_limit = unset;
  recheck = none;
}

abbrev items : Router
items = record {
  prefix = codes "/items";
  auth = unset;
  rate_limit = unset;
  tags = [];
  handlers = [];
  declared = [];
  middleware = [];
  children = [];
  statics = [];
  included = false;
}

abbrev items_with_read : Router
items_with_read = record items { declared = reads_item ∷ [] }

-- Two routers that include each other.
abbrev ring : ℕ → Router
ring zero = record items { children = (1, []) ∷ [] }
ring (suc _) = record items_with_read { children = (0, []) ∷ [] }

abbrev outermost : Context
outermost = record {
  outer = [];
  middleware = [];
  seen = [];
  auth = unset;
  rate_limit = unset;
  tags = [];
  handlers = [];
}

declare-Distinct_example :
    Distinct (codes "/items") (reads_item ∷ [])
    × (reads_item ∷ [] ≡ [] ++ reads_item ∷ [])
    × (false ≡ false)
unfolding declare
declare-Distinct_example = declare-Distinct (λ _ _. true) reads_item items items_with_read tt refl

flatten_total_example :
    ((e : Error) × (flatten ring (λ _ _. true) 3 0 outermost ≡ done (raise e)))
    ⊎ ((rs : List Route) × (flatten ring (λ _ _. true) 3 0 outermost ≡ done (ok rs))
        × IsFresh [] (0 ∷ 1 ∷ 0 ∷ []))
flatten_total_example =
    flatten_total 2 ring (λ _ _. true) 3 0 outermost (1 ∷ 0 ∷ []) closed (omega arith) (omega arith)
      (refl, (refl, tt))
  where
    closed : (r : ℕ) → All (λ c. c.0 < 2) (ring r).children
    closed zero = (omega arith, tt)
    closed (suc r) = (omega arith, tt)
