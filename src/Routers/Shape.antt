-- ===== src/Routers/Shape.antt =====
-- `route_shape` of python/oxbrook/_routing.py, and the paths of python/oxbrook/_routers.py.
use oxbrook.Prelude.{
  ℕ, ◌≡◌, refl, ap, false, ◌&&◌, not, [], ◌∷◌, ◌++◌, ◌==◌, if◌then◌else◌, Result, ok, ◌>>◌, require,
  value_error, Text, text_eq, ends_with, arith, Option, none, some, ◌∙◌, sym,
}

abbrev opening : ℕ
opening = 123

abbrev closing : ℕ
closing = 125

-- The substitution of `_ANY_PLACEHOLDER`: an opening brace and what follows it up to a closing one,
-- with no brace between, gives "{}". The option holds what was read since an opening brace.
unfoldable pub shape_from : Option Text → Text → Text
shape_from none [] = []
shape_from (some seen) [] = opening ∷ seen
shape_from none (c ∷ s) =
    let inside = shape_from (some []) s in
    let outside = shape_from none s in if c == opening then inside else c ∷ outside
shape_from (some seen) (c ∷ s) =
    let outside = shape_from none s in
    let again = shape_from (some []) s in
    let longer = shape_from (some (seen ++ c ∷ [])) s in
    if c == closing
    then opening ∷ closing ∷ outside
    else if c == opening
    then opening ∷ (seen ++ again)
    else longer

unfoldable pub route_shape : Text → Text
unfolding shape_from
route_shape path = shape_from none path

abbrev pub slash : ℕ
slash = 47

-- `check_prefix`
unfoldable pub check_prefix : Text → Result Text
check_prefix [] = ok []
check_prefix (c ∷ prefix) = do
  require (c == slash && not (ends_with slash (c ∷ prefix))) value_error
  ok (c ∷ prefix)

abbrev or_slash : Text → Text
or_slash [] = slash ∷ []
or_slash (c ∷ s) = c ∷ s

-- `_join`
unfoldable pub join : Text → Text → Text
join base prefix = if text_eq prefix (slash ∷ []) then or_slash base else base ++ prefix

abbrev pub NoBraces : Text → Type 0
NoBraces [] = Unit
NoBraces (c ∷ s) = ((c == opening) ≡ false) × ((c == closing) ≡ false) × NoBraces s

shape_plain : (s t : Text) → NoBraces s → shape_from none (s ++ t) ≡ s ++ shape_from none t
unfolding shape_from
shape_plain [] t h = refl
shape_plain (c ∷ s) t (a, b, h) = ground (arith, shape_plain s t h)

shape_inside :
    (seen name t : Text)
    → NoBraces name
    → shape_from (some seen) (name ++ closing ∷ t) ≡ opening ∷ closing ∷ shape_from none t
unfolding shape_from
shape_inside seen [] t h = refl
shape_inside seen (c ∷ name) t (a, b, h) = ground (arith, shape_inside (seen ++ c ∷ []) name t h)

-- Two paths that differ in the name of a parameter have one shape, wherever the parameter stands.
pub route_shape-rename :
    (before name other after : Text)
    → NoBraces before
    → NoBraces name
    → NoBraces other
    → route_shape (before ++ opening ∷ (name ++ closing ∷ after))
      ≡ route_shape (before ++ opening ∷ (other ++ closing ∷ after))
unfolding route_shape shape_from
route_shape-rename before name other after b n o =
    shape_plain before (opening ∷ (name ++ closing ∷ after)) b
    ∙ ap (◌++◌ before) (shape_inside [] name after n)
    ∙ sym (
        shape_plain before (opening ∷ (other ++ closing ∷ after)) b
        ∙ ap (◌++◌ before) (shape_inside [] other after o))
