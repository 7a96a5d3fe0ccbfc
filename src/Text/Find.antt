-- ===== src/Text/Find.antt =====
-- `str::find` of a text, and the words that it finds.
use talaria_v.Base.{
  ℕ, Bool, true, false, not, ◌&&◌, [], ◌∷◌, Option, none, some, if◌then◌else◌, length, drop, first,
}
use talaria_v.Text.{Text, starts_with, is_ascii_alphanumeric}

-- The texts before and behind the first occurrence of the needle.
unfoldable pub find_split : Text → Text → Option (Text × Text)
unfolding starts_with
find_split needle [] = if starts_with [] needle then some ([], []) else none
find_split needle (c ∷ s) =
    let rest = find_split needle s in
    if starts_with (c ∷ s) needle
    then some ([], drop (length needle) (c ∷ s))
    else elim rest [ none ↦ none | some (before, behind) ↦ some (c ∷ before, behind) ]

-- `s[..s.find(needle)?]`
abbrev before_of : Option (Text × Text) → Option Text
before_of none = none
before_of (some (before, behind)) = some before

unfoldable pub text_before : Text → Text → Option Text
unfolding find_split
text_before needle s = before_of (find_split needle s)

-- The last character, if any.
abbrev last_of : Text → Option ℕ
last_of [] = none
last_of (c ∷ []) = some c
last_of (c ∷ d ∷ s) = last_of (d ∷ s)

-- No letter or digit of ASCII stands there. A byte of a longer character is none.
abbrev is_boundary : Option ℕ → Bool
is_boundary none = true
is_boundary (some c) = not (is_ascii_alphanumeric c)

abbrev stands_alone : Option (Text × Text) → Bool
stands_alone none = false
stands_alone (some (before, behind)) = is_boundary (last_of before) && is_boundary (first behind)

-- The first occurrence is a word; later ones are not looked at.
unfoldable pub first_is_word : Text → Text → Bool
unfolding find_split is_ascii_alphanumeric
first_is_word hay needle = stands_alone (find_split needle hay)
