-- ===== src/Judge/Place.antt =====
-- Places of claims: crates/talaria-judge/src/place.rs. The upper case of a character is a parameter.
pub mod Best
use talaria_v.Base.{
  ℕ, String, Bool, true, false, ◌&&◌, ◌||◌, List, [], ◌∷◌, ◌++◌, Option, none, some, ◌==◌, ltb,
  if◌then◌else◌, ℤ, map, is_some,
}
use talaria_v.Text.{
  Text, codes, is, is_one_of, text_eq, contains, trim, trim_end_matches, to_ascii_lowercase,
  byte_len, split, join,
}
use talaria_v.Text.Find.{first_is_word}
use talaria_v.Text.Unicode.{Unicode}
use talaria_v.Judge.Gazetteer.{gazetteer}

-- Coordinates in ten-thousandths of a degree.
pub record ParsedPlace : Type 0 where
  pub label : Text
  pub lat : Option ℤ
  pub lon : Option ℤ

unfoldable pub map_eligible : ParsedPlace → Bool
map_eligible p = is_some p.lat && is_some p.lon

unfoldable pub lookup : Text → List (String × ℤ × ℤ) → Option (ℤ × ℤ)
unfolding is
lookup key [] = none
lookup key ((name, lat, lon) ∷ places) =
    let rest = lookup key places in if is key name then some (lat, lon) else rest

unfoldable pub gazetteer_lookup : Text → Option (ℤ × ℤ)
unfolding lookup gazetteer
gazetteer_lookup key = lookup key gazetteer

abbrev placed : Text → Option (ℤ × ℤ) → ParsedPlace
placed label none = record { label = label; lat = none; lon = none }
placed label (some (lat, lon)) = record { label = label; lat = some lat; lon = some lon }

unfoldable pub parse_place_surface : Unicode → Text → ParsedPlace
unfolding trim trim_end_matches
parse_place_surface u surface =
    let label = trim_end_matches (λ c. c == b'.') (trim surface) in
    placed label (gazetteer_lookup (u.to_lowercase label))

-- `COUNTRY_OR_REALM.contains(name)`
unfoldable pub is_country_or_realm : Text → Bool
unfolding is_one_of
is_country_or_realm name = is_one_of name (
    "france" ∷ "italy" ∷ "spain" ∷ "portugal" ∷ "germany" ∷ "prussia" ∷ "austria" ∷ "russia"
    ∷ "england" ∷ "britain" ∷ "belgium" ∷ "egypt" ∷ "malta" ∷ [])

unfoldable pub locality : Text → ℕ
unfolding is_country_or_realm
locality name = if is_country_or_realm name then 0 else 1

-- The name is better than the best so far: a locality before a country, then the longer name.
abbrev pub better : Option Text → Text → Bool
better none name = true
better (some best) name =
    ltb (locality best) (locality name)
    || locality name == locality best && ltb (byte_len best) (byte_len name)

-- The loop over the gazetteer, with the best name so far.
unfoldable pub best_place : Text → Option Text → List (String × ℤ × ℤ) → Option Text
unfolding first_is_word codes
best_place lower best [] = best
best_place lower best ((name, lat, lon) ∷ places) =
    best_place lower
      (if first_is_word lower (codes name) && better best (codes name)
        then some (codes name)
        else best)
      places

module _ (to_uppercase : ℕ → Text) where
  abbrev capitalized : Text → Text
  capitalized [] = []
  capitalized (c ∷ s) = to_uppercase c ++ s

  unfoldable pub title_case_place : Text → Text
  unfolding contains codes split join
  title_case_place place =
      let sep = if contains place (codes "-") then codes "-" else codes " " in
      join (map capitalized (split (λ c. c == b'-' || c == b' ') place)) sep

  abbrev pub titled : Option Text → Option Text
  titled none = none
  titled (some name) = some (title_case_place name)

  unfoldable pub find_place_in_text : Text → Option Text
  unfolding to_ascii_lowercase best_place gazetteer title_case_place
  find_place_in_text text = titled (best_place (to_ascii_lowercase text) none gazetteer)
