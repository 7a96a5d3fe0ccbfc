-- ===== src/Wiki/Infobox/Keys.antt =====
-- The keys of infoboxes, in English and French.
use talaria_v.Base.{Bool, ◌||◌, ◌∷◌, [], map, ◌==◌, if◌then◌else◌}
use talaria_v.Text.{Text, codes, is_one_of, contains, contains_any, split_whitespace, join}
use talaria_v.Text.Unicode.{Unicode}

unfoldable pub normalize_infobox_key : Unicode → Text → Text
unfolding split_whitespace join codes
normalize_infobox_key u key =
    join (split_whitespace (map (λ c. if c == b'_' then b' ' else c) (u.to_lowercase key)))
      (codes " ")

unfoldable pub is_birth_place_key : Text → Bool
unfolding is_one_of contains codes
is_birth_place_key key =
    is_one_of key (
      "birth place" ∷ "birthplace" ∷ "lieu de naissance" ∷ "lieu naissance" ∷ "place of birth" ∷ [])
    || contains key (codes "lieu de naissance")

unfoldable pub is_death_place_key : Text → Bool
unfolding is_one_of contains_any
is_death_place_key key =
    is_one_of key (
      "death place" ∷ "deathplace" ∷ "lieu de décès" ∷ "lieu de deces" ∷ "lieu décès" ∷ "lieu deces"
      ∷ "place of death" ∷ [])
    || contains_any key ("lieu de décès" ∷ "lieu de deces" ∷ [])

unfoldable pub is_residence_key : Text → Bool
unfolding is_one_of contains_any
is_residence_key key =
    is_one_of key (
      "residence" ∷ "residences" ∷ "résidence" ∷ "résidences" ∷ "resting place" ∷ "lieu de repos"
      ∷ [])
    || contains_any key ("résidence" ∷ "residence" ∷ [])

unfoldable pub is_birth_date_key : Text → Bool
unfolding is_one_of
is_birth_date_key key =
    is_one_of key ("birth date" ∷ "birthdate" ∷ "date de naissance" ∷ "naissance" ∷ [])

unfoldable pub is_death_date_key : Text → Bool
unfolding is_one_of
is_death_date_key key =
    is_one_of key
      ("death date" ∷ "deathdate" ∷ "date de décès" ∷ "date de deces" ∷ "décès" ∷ "deces" ∷ [])
