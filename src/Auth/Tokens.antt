-- ===== src/Auth/Tokens.antt =====
-- `_Signed.check` and `_remember` of python/oxbrook/auth.py: the memory of tokens already verified.
--
-- A token is a number, and a time a number in a unit in which `exp` and `leeway` are whole. Verifying,
-- `_claims` and `_principal` together, is a parameter: the `exp` claim and the principal, or a refusal.
use oxbrook.Prelude.{
  ℕ, ◌+◌, ◌/◌, max, Option, none, some, List, [], ◌∷◌, ◌==◌, leb, if◌then◌else◌, length, drop,
}
use oxbrook.Auth.Policy.{Principal}

pub record Entry : Type 0 where
  pub token : ℕ
  pub until : ℕ
  pub who : Principal

pub record Memory : Type 0 where
  pub verified : List Entry
  pub cache_size : ℕ
  pub leeway : ℕ

-- `dict.get`, `pop` and assignment
abbrev pub find : ℕ → List Entry → Option Entry
find t [] = none
find t (e ∷ es) = if e.token == t then some e else find t es

abbrev pub erase : ℕ → List Entry → List Entry
erase t [] = []
erase t (e ∷ es) = if e.token == t then es else e ∷ erase t es

abbrev pub store : Entry → List Entry → List Entry
store n [] = n ∷ []
store n (e ∷ es) = if e.token == n.token then n ∷ es else e ∷ store n es

-- The oldest quarter goes when the memory is full.
unfoldable pub trim : ℕ → List Entry → List Entry
trim size es = if leb size (length es) then drop (max 1 (size / 4)) es else es

unfoldable pub remember : Entry → Memory → Memory
unfolding trim
remember e m = record m { verified = store e (trim m.cache_size m.verified) }

-- `if self.cache_size`
unfoldable pub keep : ℕ → ℕ × Principal → Memory → Memory
unfolding remember
keep token (exp, who) m =
    if m.cache_size == 0
    then m
    else remember (record { token = token; until = exp + m.leeway; who = who }) m

abbrev pub verified_now : ℕ → Option (ℕ × Principal) → Memory → Memory × Option Principal
verified_now token none m = (m, none)
verified_now token (some (exp, who)) m = (keep token (exp, who) m, some who)

-- A remembered token, if there is one.
abbrev pub check_found :
    (ℕ → ℕ → Option (ℕ × Principal)) → ℕ → ℕ → Option Entry → Memory → Memory × Option Principal
check_found verify now token none m = verified_now token (verify now token) m
check_found verify now token (some e) m =
    if leb now e.until
    then (m, some e.who)
    else verified_now token (verify now token) (record m { verified = erase token m.verified })

unfoldable pub check : (ℕ → ℕ → Option (ℕ × Principal)) → ℕ → ℕ → Memory → Memory × Option Principal
check verify now token m = check_found verify now token (find token m.verified) m

-- `OIDC` empties the memory when the provider's keys change.
unfoldable pub forget : Memory → Memory
forget m = record m { verified = [] }
