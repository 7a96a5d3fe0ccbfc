-- ===== src/Explorer.antt =====
-- What the explorer shows as an event: crates/talaria-quality/src/explorer.rs.
pub mod Headline
mod Tests
use talaria_v.Base.{
  ℕ, Bool, true, false, not, ◌&&◌, ◌||◌, List, [], ◌∷◌, Option, none, some, ltb, leb, ◌==◌,
  if◌then◌else◌, is_empty, length, any, all, keep, unwrap_or,
}
use talaria_v.Text.{
  Text, codes, is, is_one_of, contains, contains_any, starts_with, trim, byte_len, is_ascii_digit,
  to_ascii_lowercase, split, split_whitespace,
}
use talaria_v.Text.Unicode.{Unicode}
use talaria_v.Gates.{event_type_is_map_locus}

-- `value[1..]` behind `starts_with('Q')`, which is one byte.
unfoldable pub q_digits : Text → Bool
unfolding is_ascii_digit
q_digits [] = false
q_digits (c ∷ s) = c == b'Q' && all is_ascii_digit s

unfoldable pub is_wikidata_qid : Text → Bool
unfolding trim byte_len q_digits
is_wikidata_qid raw = let value = trim raw in leb 2 (byte_len value) && q_digits value

unfoldable pub is_statement_blob : Text → Bool
unfolding trim starts_with contains codes
is_statement_blob raw =
    let text = trim raw in
    starts_with text (codes "STATEMENT")
    || contains text (codes " | ") && leb 2 (length (keep (λ c. c == b'|') text))

unfoldable pub is_human_place_label : Text → Bool
unfolding trim is_wikidata_qid contains codes split_whitespace
is_human_place_label raw =
    let place = trim raw in
    if is_empty place || is_wikidata_qid place
    then false
    else if ltb 36 (length place) || contains place (codes ".")
    then false
    else leb (length (split_whitespace place)) 4

unfoldable pub is_occurrence_prose : Text → Bool
unfolding trim is_statement_blob is_one_of to_ascii_lowercase contains codes
is_occurrence_prose raw =
    let text = trim raw in
    if ltb (length text) 28 || is_statement_blob text
    then false
    else if is_one_of (to_ascii_lowercase text)
        ("born_in" ∷ "died_in" ∷ "resided_in" ∷ "held_office" ∷ "occurred" ∷ [])
    then false
    else contains text (codes " ")

unfoldable pub type_cues : Text → Text → Bool
unfolding to_ascii_lowercase is is_one_of contains_any
type_cues event_type raw =
    let text = to_ascii_lowercase raw in
    if is event_type "birth"
    then contains_any text ("born" ∷ "naît" ∷ "nait" ∷ [])
    else if is event_type "death"
    then contains_any text ("died" ∷ "mort" ∷ "décès" ∷ [])
    else if is_one_of event_type ("marriage" ∷ "wedding" ∷ [])
    then contains_any text ("married" ∷ "marié" ∷ "wedding" ∷ [])
    else if is_one_of event_type ("battle" ∷ "siege" ∷ [])
    then contains_any text ("battle" ∷ "fought" ∷ "siege" ∷ "bataille" ∷ "combat" ∷ "defeated" ∷ [])
    else if is event_type "residence"
    then contains_any text ("lived" ∷ "resided" ∷ "moved" ∷ "stayed" ∷ "exiled" ∷ "habita" ∷ [])
    else if is event_type "education"
    then contains_any text ("studied" ∷ "school" ∷ "université" ∷ "college" ∷ "étudiant" ∷ [])
    else if is event_type "office"
    then contains_any text
        ("elected" ∷ "president" ∷ "king" ∷ "inaugur" ∷ "crowned" ∷ "empereur" ∷ [])
    else if is event_type "diplomatic"
    then contains_any text ("treaty" ∷ "accord" ∷ "negotiat" ∷ "diplom" ∷ "signed the" ∷ [])
    else if is_one_of event_type ("travel" ∷ "arrival" ∷ "departure" ∷ "passage" ∷ [])
    then contains_any text ("visited" ∷ "arrived" ∷ "left" ∷ "travel" ∷ "voyage" ∷ [])
    else true

-- `map(str::trim).filter(|text| !text.is_empty())`
unfoldable pub trimmed : Option Text → Option Text
unfolding trim
trimmed none = none
trimmed (some s) = let t = trim s in if is_empty t then none else some t

-- `summary.or(title).unwrap_or("")`
unfoldable pub body_of : Option Text → Option Text → Text
body_of none title = unwrap_or title []
body_of (some s) title = s

abbrev is_life : Text → Bool
is_life event_type = is_one_of event_type ("birth" ∷ "death" ∷ "marriage" ∷ "wedding" ∷ [])

module _ (u : Unicode) where
  unfoldable pub place_mentioned : Text → Text → Bool
  unfolding to_ascii_lowercase contains split
  place_mentioned place text =
      let hay = to_ascii_lowercase text in
      let needle = to_ascii_lowercase place in
      if contains hay needle
      then true
      else any (λ word. contains hay word)
          (keep (λ word. leb 4 (length word)) (split (λ c. not (u.is_alphanumeric c)) needle))

  -- The part of `is_explorer_map_event` behind the test on the type.
  unfoldable pub pinned : Text → Option Text → Text → Bool
  pinned event_type none body = false
  pinned event_type (some place) body =
      if not (is_human_place_label place)
      then false
      else if not (is_occurrence_prose body)
      then false
      else if is_life event_type && type_cues event_type body
      then true
      else place_mentioned place body && type_cues event_type body

  unfoldable pub is_explorer_map_event : Text → Option Text → Option Text → Option Text → Bool
  is_explorer_map_event event_type place summary title =
      if not (event_type_is_map_locus event_type)
      then false
      else pinned event_type (trimmed place) (body_of summary title)

  unfoldable pub is_explorer_timeline_event : Text → Option Text → Option Text → Option Text → Bool
  is_explorer_timeline_event event_type place summary title =
      if is_one_of event_type ("birth" ∷ "death" ∷ [])
      then true
      else if is_one_of event_type ("marriage" ∷ "wedding" ∷ [])
          && is_occurrence_prose (body_of summary title)
          && type_cues event_type (body_of summary title)
      then true
      else is_explorer_map_event event_type place summary title
