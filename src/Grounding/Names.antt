-- ===== src/Grounding/Names.antt =====
-- Whether a quote is about another person than the subject: `agent_is_other_person` of
-- crates/talaria-quality/src/grounding.rs. The loop over the tokens of the quote is a recursion on
-- their list.
use talaria_v.Base.{
  ℕ, ltb, leb, Bool, false, not, ◌&&◌, ◌||◌, List, [], ◌∷◌, Option, none, some, ◌==◌, any,
  if◌then◌else◌, first, is_empty, is_some, unwrap_or, keep, length,
}
use talaria_v.Text.{
  Text, text_eq, is_one_of, is_ascii_digit, trim_start_matches, trim_end_matches, trim, contains,
  split, split_whitespace, join,
}
use talaria_v.Text.Decimal.{parse_i32}
use talaria_v.Text.Unicode.{Unicode}

abbrev last_or : Text → List Text → Text
last_or default [] = default
last_or default (w ∷ ws) = last_or w ws

-- `SKIP_NAME.contains`
unfoldable pub is_skip_name : Text → Bool
unfolding is_one_of
is_skip_name t = is_one_of t (
    "the" ∷ "and" ∷ "for" ∷ "with" ∷ "from" ∷ "that" ∷ "this" ∷ "april" ∷ "june" ∷ "july" ∷ "march"
    ∷ "august" ∷ "january" ∷ "february" ∷ "september" ∷ "october" ∷ "november" ∷ "december" ∷ "on"
    ∷ "in" ∷ "at" ∷ "of" ∷ "to" ∷ "by" ∷ [])

-- `LEADING_FUNCTION.contains`
unfoldable pub is_leading_function : Text → Bool
unfolding is_one_of
is_leading_function t = is_one_of t (
    "de" ∷ "du" ∷ "des" ∷ "le" ∷ "la" ∷ "les" ∷ "un" ∷ "une" ∷ "au" ∷ "aux" ∷ "en" ∷ "et" ∷ "ou"
    ∷ "ses" ∷ "son" ∷ "sa" ∷ "ces" ∷ "cette" ∷ "cet" ∷ "mon" ∷ "ma" ∷ "mes" ∷ "ton" ∷ "ta" ∷ "tes"
    ∷ "dans" ∷ "pour" ∷ "avec" ∷ "sans" ∷ "sous" ∷ "sur" ∷ "chez" ∷ "vers" ∷ "entre" ∷ "après"
    ∷ "avant" ∷ "depuis" ∷ "lors" ∷ "lorsque" ∷ "quand" ∷ "comme" ∷ "mais" ∷ "car" ∷ "donc" ∷ "puis"
    ∷ "ainsi" ∷ "alors" ∷ "or" ∷ "ni" ∷ "retour" ∷ "moins" ∷ [])

unfoldable pub is_year_or_day : Text → Bool
unfolding is_ascii_digit trim_start_matches trim_end_matches parse_i32
is_year_or_day tok = is_some (
    parse_i32 (
      trim_end_matches (λ c. not (is_ascii_digit c))
        (trim_start_matches (λ c. not (is_ascii_digit c)) tok)))

module _ (u : Unicode) where
  -- The subject without a parenthesis, in lower case, and its last word.
  unfoldable pub subject_parts : Text → Text × Text
  unfolding trim split split_whitespace
  subject_parts subject =
      let name = trim (unwrap_or (first (split (λ c. c == b'(') subject)) subject) in
      (u.to_lowercase name, u.to_lowercase (last_or name (split_whitespace name)))

  -- A character that is no part of a name.
  unfoldable pub off_name : ℕ → Bool
  off_name c = not (u.is_alphabetic c) && not (c == b'-') && not (c == 0x27)

  unfoldable pub clean_token : Text → Text
  unfolding off_name trim_start_matches trim_end_matches
  clean_token tok = trim_end_matches off_name (trim_start_matches off_name tok)

  unfoldable pub looks_like_name_token : Text → Bool
  unfolding clean_token is_skip_name
  looks_like_name_token tok =
      let t = clean_token tok in
      not (ltb (length t) 3)
      && not (is_skip_name (u.to_lowercase t))
      && elim (first t) [ none ↦ false | some c ↦ u.is_uppercase c ]

  unfoldable pub is_likely_place_token : Text → Bool
  unfolding is_one_of
  is_likely_place_token tok = is_one_of (u.to_lowercase tok) (
      "paris" ∷ "lyon" ∷ "marseille" ∷ "brussels" ∷ "bruxelles" ∷ "belgium" ∷ "belgique" ∷ "france"
      ∷ "london" ∷ "londres" ∷ "rome" ∷ "venice" ∷ "venise" ∷ "vienna" ∷ "vienne" ∷ "honfleur"
      ∷ "ajaccio" ∷ "waterloo" ∷ "elba" ∷ "austerlitz" ∷ "moscow" ∷ "moscou" ∷ "india" ∷ "inde"
      ∷ "mauritius" ∷ "réunion" ∷ "reunion" ∷ "bordeaux" ∷ "pantheon" ∷ "panthéon" ∷ [])

  unfoldable pub contains_name_token : Text → Text → Bool
  unfolding off_name split text_eq
  contains_name_token haystack needle =
      not (is_empty needle)
      && any (λ w. text_eq w needle) (keep (λ w. not (is_empty w)) (split off_name haystack))

  -- The name tokens that follow, up to the first place.
  unfoldable pub name_span : List Text → List Text
  unfolding looks_like_name_token clean_token is_likely_place_token
  name_span [] = []
  name_span (tok ∷ toks) =
      let rest = name_span toks in
      if looks_like_name_token tok && not (is_likely_place_token (clean_token tok))
      then clean_token tok ∷ rest
      else []

  -- A token at which no name begins.
  unfoldable pub is_skipped : Text → Bool
  unfolding clean_token is_year_or_day is_skip_name is_leading_function looks_like_name_token
      is_likely_place_token
  is_skipped raw =
      let cleaned = clean_token raw in
      is_empty cleaned
      || is_year_or_day raw
      || is_skip_name (u.to_lowercase cleaned)
      || is_leading_function (u.to_lowercase cleaned)
      || not (looks_like_name_token raw)
      || is_likely_place_token cleaned

  -- The first name in the tokens of the quote.
  unfoldable pub first_name : List Text → Option (List Text)
  unfolding is_skipped name_span clean_token
  first_name [] = none
  first_name (raw ∷ toks) =
      let rest = first_name toks in
      if is_skipped raw then rest else some (clean_token raw ∷ name_span toks)

  -- Whether the name is neither the subject nor shares the surname.
  unfoldable pub is_other : Text → Text → List Text → Bool
  unfolding join contains text_eq
  is_other subject_l surname parts =
      let name = u.to_lowercase (join parts (b' ' ∷ [])) in
      not (contains subject_l name || contains name subject_l)
      && not (any (λ w. text_eq (u.to_lowercase w) surname) parts)

  -- Whether the quote names the subject by its name, its surname or a long part of the name.
  unfoldable pub names_subject : Text → Text → Text → Bool
  unfolding contains_name_token split_whitespace
  names_subject quote_l subject_l surname =
      contains_name_token quote_l subject_l
      || contains_name_token quote_l surname
      || any (λ part. leb 5 (length part) && contains_name_token quote_l part)
          (split_whitespace subject_l)

  unfoldable pub agent_is_other_person : Text → Text → Bool
  unfolding subject_parts names_subject first_name is_other split_whitespace
  agent_is_other_person quote subject =
      let subject_l = (subject_parts subject).0 in
      let surname = (subject_parts subject).1 in
      if is_empty surname
      then false
      else if names_subject (u.to_lowercase quote) subject_l surname
      then false
      else elim (first_name (split_whitespace quote)) [
        | none ↦ false
        | some parts ↦ is_other subject_l surname parts
      ]
