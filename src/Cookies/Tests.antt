-- ===== src/Cookies/Tests.antt =====
-- A codec of numbers: each is moved past the dot, and a payload's signature is itself after a one.
use oxbrook.Prelude.{
  ◌+◌, ◌-◌, ◌≡◌, refl, true, false, Option, none, some, [], ◌∷◌, Text, contains, arith,
}
use oxbrook.Cookies.{
  Data, set_item, pop_item, apply, Body, Codec, Sessions, dot, partition, read_body, decode, loaded,
  load, operate, middleware,
}
use oxbrook.Cookies.Trips.{IsCodec, loaded-IsSigned, jar, load-middleware}

abbrev shifted : Data → Text
shifted [] = []
shifted ((k, v) ∷ items) = (k + 47) ∷ (v + 47) ∷ shifted items

abbrev pairs : Text → Data
pairs [] = []
pairs (_ ∷ []) = []
pairs (k ∷ v ∷ rest) = (k - 47, v - 47) ∷ pairs rest

abbrev unpacked : Text → Option Body
unpacked [] = none
unpacked (t ∷ rest) = some (record { issued = t - 47; items = some (pairs rest) })

abbrev codec : Codec
codec = record {
  sign = λ payload. 1 ∷ payload;
  pack = λ items now. (now + 47) ∷ shifted items;
  unpack = unpacked;
}

pairs-shifted : (items : Data) → pairs (shifted items) ≡ items
pairs-shifted [] = refl
pairs-shifted ((k, v) ∷ items) = ground (arith, pairs-shifted items)

contains-shifted : (items : Data) → contains dot (shifted items) ≡ false
contains-shifted [] = refl
contains-shifted ((k, v) ∷ items) = ground (arith, contains-shifted items)

codec-IsCodec : IsCodec codec
codec-IsCodec = record {
  unpack-pack = λ items now. ground (arith, pairs-shifted items);
  no_dot = λ items now. ground (arith, contains-shifted items);
  packed = λ items now. refl;
  signed = λ payload. refl;
}

abbrev sessions : Sessions
sessions = record { has_secret = true; max_age = 100 }

-- A session of one item, written at 5.
abbrev cookie : Text
cookie = 52 ∷ 48 ∷ 49 ∷ 46 ∷ 1 ∷ 52 ∷ 48 ∷ 49 ∷ []

loaded-IsSigned_example :
    ((partition cookie).1 ≡ codec.sign (partition cookie).0)
    × (loaded codec sessions 9 (some cookie)
        ≡ read_body sessions 9 (codec.unpack (partition cookie).0))
unfolding decode
loaded-IsSigned_example = loaded-IsSigned codec sessions 9 cookie (λ e. ground (arith, e))

load-middleware_example :
    (load codec sessions 60 (
      jar
        (some cookie)
        (middleware codec sessions 9 (some cookie) (set_item 3 4 ∷ pop_item 1 none ∷ [])))).items
    ≡ (3, 4) ∷ []
unfolding operate apply load decode
load-middleware_example =
    load-middleware codec sessions 9 60 (some cookie) (set_item 3 4 ∷ pop_item 1 none ∷ [])
      codec-IsCodec (tt, (tt, tt)) refl refl refl
