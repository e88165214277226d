-- ===== src/Sse/Lines.antt =====
-- `LINE_BREAK` of python/oxbrook/_sse.py: splitting at "\r\n", "\r" and "\n".
use oxbrook.Prelude.{
  ℕ, ◌≡◌, refl, Bool, false, ◌||◌, List, [], ◌∷◌, ◌++◌, ◌==◌, if◌then◌else◌, Text, arith, All,
}

abbrev pub is_break : ℕ → Bool
is_break c = c == 10 || c == 13

-- `LINE_BREAK.search(value)`
abbrev pub has_break : Text → Bool
has_break [] = false
has_break (c ∷ s) = is_break c || has_break s

abbrev pub push : ℕ → List Text → List Text
push c [] = (c ∷ []) ∷ []
push c (line ∷ lines) = (c ∷ line) ∷ lines

-- The flag says that the character before was "\r", which a "\n" joins.
unfoldable pub split_from : Bool → Text → List Text
split_from cr [] = [] ∷ []
split_from cr (c ∷ s) =
    let rest = split_from (c == 13) s in
    if c == 10 then if cr then rest else [] ∷ rest else if c == 13 then [] ∷ rest else push c rest

-- `LINE_BREAK.split(text)`
unfoldable pub split_lines : Text → List Text
unfolding split_from
split_lines s = split_from false s

abbrev pub NoBreak : Text → Type 0
NoBreak s = has_break s ≡ false

push-NoBreak :
    (c : ℕ) (lines : List Text)
    → is_break c ≡ false
    → All NoBreak lines
    → All NoBreak (push c lines)
push-NoBreak c [] h k = ground arith
push-NoBreak c (line ∷ lines) h (k, ks) = ground arith

split_from-NoBreak : (cr : Bool) (s : Text) → All NoBreak (split_from cr s)
unfolding split_from
split_from-NoBreak cr [] = (refl, tt)
split_from-NoBreak cr (c ∷ s) =
    ground (arith, split_from-NoBreak (c == 13) s, push-NoBreak c (split_from (c == 13) s))

-- No part that a split at line breaks gives holds a line break.
pub split_lines-NoBreak : (s : Text) → All NoBreak (split_lines s)
unfolding split_lines
split_lines-NoBreak s = split_from-NoBreak false s

-- A line without breaks, and the "\n" that ends it, are split off whole.
pub split_from-line :
    (line rest : Text)
    → NoBreak line
    → split_from false (line ++ 10 ∷ rest) ≡ line ∷ split_from false rest
unfolding split_from
split_from-line [] rest h = refl
split_from-line (c ∷ line) rest h = ground (arith, split_from-line line rest)
