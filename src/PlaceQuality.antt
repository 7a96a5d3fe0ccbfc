-- ===== src/PlaceQuality.antt =====
-- Names of places told from other phrases: crates/talaria-sources/src/place_quality.rs.
pub mod Lists
mod Tests
use talaria_v.Base.{
  ℕ, String, Bool, true, false, not, ◌&&◌, ◌||◌, List, [], ◌∷◌, ◌++◌, Option, none, some, ltb, leb,
  ◌==◌, if◌then◌else◌, is_empty, length, all, any, keep, first,
}
use talaria_v.Text.{
  Text, codes, is_one_of, text_eq, trim, trim_start_matches, trim_end_matches, byte_len, contains,
  contains_any, starts_with, split, split_whitespace, is_ascii_digit,
}
use talaria_v.Text.Find.{find_split}
use talaria_v.Text.Unicode.{Unicode}
use talaria_v.PlaceQuality.Lists.{
  is_stop_word, is_month, is_demonym, is_abstract_noun, is_organization, is_treaty_pattern,
  has_media_pattern, is_given_name, is_geo_prefix, title_prefixes,
}

-- `lits.iter().any(|l| s.starts_with(l))`
unfoldable pub starts_with_any : Text → List String → Bool
unfolding starts_with codes
starts_with_any s [] = false
starts_with_any s (lit ∷ lits) = starts_with s (codes lit) || starts_with_any s lits

unfoldable pub ends_with : Text → Text → Bool
unfolding text_eq
ends_with [] t = text_eq [] t
ends_with (c ∷ s) t = text_eq (c ∷ s) t || ends_with s t

unfoldable pub ends_with_any : Text → List String → Bool
unfolding ends_with codes
ends_with_any s [] = false
ends_with_any s (lit ∷ lits) = ends_with s (codes lit) || ends_with_any s lits

-- `tokens[tokens.len() - 1]`
abbrev last_token : Text → List Text → Text
last_token t [] = t
last_token t (u ∷ us) = last_token u us

abbrev is_upper : Unicode → Option ℕ → Bool
is_upper u none = false
is_upper u (some c) = u.is_uppercase c

-- Exactly one ` with `, and a capital letter behind it.
abbrev with_name : Unicode → Option (Text × Text) → Bool
with_name u none = false
with_name u (some (before, behind)) = elim (find_split (codes " with ") behind) [
  | none ↦ is_upper u (first (trim behind))
  | some more ↦ false
]

-- `tokens[0] == *t || tokens[0].starts_with(&format!("{t}-"))`
unfoldable pub has_title_prefix : Text → List String → Bool
unfolding text_eq starts_with codes
has_title_prefix token [] = false
has_title_prefix token (t ∷ ts) =
    text_eq token (codes t) || starts_with token (codes t ++ b'-' ∷ []) || has_title_prefix token ts

module _ (u : Unicode) where
  unfoldable pub is_street_address : Text → Bool
  unfolding trim_start_matches starts_with_any
  is_street_address s =
      starts_with_any
        (trim_start_matches (λ c. is_ascii_digit c || c == b' ' || c == b',') (u.to_lowercase s))
        ("rue " ∷ "quai " ∷ "place " ∷ "square " ∷ "avenue " ∷ "boulevard " ∷ "hôtel " ∷ "hotel "
          ∷ "impasse " ∷ "chemin " ∷ [])

  -- The tests behind the tokens: the first token and the others.
  unfoldable pub names_other : Text → Text → Text → List Text → Bool
  unfolding is_street_address has_title_prefix split trim_start_matches trim_end_matches
      contains_any
  names_other original lower token others =
      let tokens = token ∷ others in
      let several = leb 2 (length tokens) in
      let last =
        trim_end_matches (λ c. not (u.is_alphabetic c))
          (trim_start_matches (λ c. not (u.is_alphabetic c)) (last_token token others)) in
      let parts = split (λ c. c == b'-') token in
      if is_organization lower
      then true
      else if several && any is_treaty_pattern tokens
      then true
      else if has_media_pattern lower
      then true
      else if contains lower (codes " with ") && with_name u (find_split (codes " with ") original)
      then true
      else if several && is_organization (last_token token others)
      then true
      else if contains_any lower (
          "oligarch" ∷ "president" ∷ "minister" ∷ "senator" ∷ "governor" ∷ "chancellor"
          ∷ "ambassador" ∷ [])
      then true
      else if contains_any lower ("compliance" ∷ "withdrawal" ∷ "sanctions" ∷ "violation" ∷ [])
      then true
      else if has_title_prefix token title_prefixes
      then true
      else if any is_geo_prefix tokens || is_street_address original
      then false
      else if several && is_given_name last
      then true
      else several
        && (leb 2 (length parts) && all is_given_name parts
            || is_given_name token && leb (length tokens) 3)

  abbrev of_tokens : Text → Text → List Text → Bool
  of_tokens original lower [] = false
  of_tokens original lower (token ∷ others) = names_other original lower token others

  unfoldable pub looks_like_non_place : Text → Text → Bool
  unfolding starts_with_any contains codes split_whitespace names_other
  looks_like_non_place original lower =
      if is_demonym lower || is_abstract_noun lower
      then true
      else if starts_with_any lower
          ("la rencontre" ∷ "le concile" ∷ "the meeting" ∷ "the encounter" ∷ "the council" ∷ [])
      then true
      else if contains lower (codes " et ") || contains lower (codes " and ")
      then true
      else of_tokens original lower (split_whitespace lower)

  abbrev starts_with_letter : Option ℕ → Bool
  starts_with_letter none = u.is_alphabetic b' '
  starts_with_letter (some c) = u.is_alphabetic c

  unfoldable pub is_plausible_place_label : Text → Bool
  unfolding trim byte_len contains codes starts_with_any contains_any ends_with_any
      is_street_address looks_like_non_place
  is_plausible_place_label raw =
      let s = trim raw in
      let lower = u.to_lowercase s in
      if ltb (byte_len s) 2 || ltb 60 (byte_len s)
      then false
      else if any (λ c. c == 10) s || ltb 5 (length (keep (λ c. c == b' ') s))
      then false
      else if contains lower (codes " the ")
          || starts_with_any lower (
              "the " ∷ "a " ∷ "an " ∷ "his " ∷ "her " ∷ "their " ∷ "have " ∷ "fight" ∷ "chapter"
              ∷ [])
          || contains_any lower ("coalition" ∷ "claim" ∷ [])
      then false
      else if is_month lower
      then false
      else if is_stop_word lower
      then false
      else if not (starts_with_letter (first s)) && not (is_street_address s)
      then false
      else if contains s (codes " ")
          && all (λ c. not (u.is_uppercase c)) s
          && not (is_street_address s)
      then false
      else if ends_with_any lower (" on" ∷ " in" ∷ " at" ∷ " of" ∷ " the" ∷ "(" ∷ "-" ∷ [])
      then false
      else if all (λ c. is_ascii_digit c || c == b'-') s
      then false
      else not (looks_like_non_place s lower)
