-- ===== src/Auth/Tickets.antt =====
-- `Tickets` of python/oxbrook/auth.py, where they are kept in the process: single-use credentials.
--
-- A ticket, which `secrets.token_urlsafe` gives, is a number, and so is a moment of the clock.
use oxbrook.Prelude.{
  ℕ, ◌+◌, ◌-◌, max, Bool, Option, none, some, List, [], ◌∷◌, ◌==◌, ltb, leb, if◌then◌else◌, length,
  take, keep_if, Result, ok, raise, value_error,
}
use oxbrook.Prelude.Dicts.{Dict, get, pop, put, pop_each, keys}
use oxbrook.Auth.Policy.{Principal}
use oxbrook.Auth.Gate.{Found, nothing, wrong, found}

-- A ticket's value is the moment until which it is good, and whose it is.
pub record Tickets : Type 0 where
  pub waiting : Dict (ℕ × Principal)
  pub ttl : ℕ
  pub param : ℕ
  pub limit : ℕ

unfoldable pub create : ℕ → ℕ → ℕ → Result Tickets
create ttl param limit =
    if ttl == 0
    then raise value_error
    else ok (record { waiting = []; ttl = ttl; param = param; limit = limit })

abbrev pub expired : ℕ → ℕ × (ℕ × Principal) → Bool
expired now (_, (until, _)) = ltb until now

-- The passes over a full store: what has expired goes, and then the oldest.
abbrev pub drop_expired : ℕ → Dict (ℕ × Principal) → Dict (ℕ × Principal)
drop_expired now waiting = pop_each (keys (keep_if (expired now) waiting)) waiting

abbrev pub drop_oldest : ℕ → Dict (ℕ × Principal) → Dict (ℕ × Principal)
drop_oldest limit waiting =
    pop_each (keys (take (max 1 ((length waiting + 1) - limit)) waiting)) waiting

unfoldable pub make_room : ℕ → Tickets → Dict (ℕ × Principal)
make_room now t =
    if leb t.limit (length t.waiting)
    then drop_oldest t.limit (drop_expired now t.waiting)
    else t.waiting

unfoldable pub issue : ℕ → ℕ → Principal → Tickets → Tickets
unfolding make_room
issue now ticket who t = record t { waiting = put ticket (now + t.ttl, who) (make_room now t) }

-- A request: whether it asks for a websocket, and its query's names and values, which `parse_qsl` reads.
pub record Request : Type 0 where
  pub is_websocket : Bool
  pub query : List (ℕ × ℕ)

abbrev pub offered : ℕ → List (ℕ × ℕ) → List ℕ
offered param [] = []
offered param ((k, v) ∷ query) = if k == param then v ∷ offered param query else offered param query

abbrev pub entry_of : ℕ → Option (ℕ × Principal) → Found
entry_of now none = wrong
entry_of now (some (until, who)) = if leb now until then found who else wrong

abbrev pub redeem : ℕ → List ℕ → Tickets → Tickets × Found
redeem now [] t = (t, nothing)
redeem now (ticket ∷ []) t =
    (record t { waiting = pop ticket t.waiting }, entry_of now (get ticket t.waiting))
redeem now (_ ∷ _ ∷ _) t = (t, wrong)

unfoldable pub authenticate : ℕ → Request → Tickets → Tickets × Found
authenticate now request t =
    if request.is_websocket then redeem now (offered t.param request.query) t else (t, nothing)
