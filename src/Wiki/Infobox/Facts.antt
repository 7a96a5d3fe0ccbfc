-- ===== src/Wiki/Infobox/Facts.antt =====
-- The facts of a life that an infobox tells.
use talaria_v.Base.{
  ℕ, ◌+◌, String, Bool, false, not, ◌&&◌, ◌||◌, List, [], ◌∷◌, ◌++◌, Option, none, some, ◌>>=◌, leb,
  ◌==◌, if◌then◌else◌, is_empty, all, keep, map, length, first, ℤ, pos, leb_ℤ,
}
use talaria_v.Base.Sort.{sort_by}
use talaria_v.Text.{
  Text, codes, trim, trim_start_matches, trim_end_matches, split, contains, byte_len,
  is_ascii_digit,
}
use talaria_v.Text.Find.{text_before}
use talaria_v.Text.Decimal.{parse_i32, show_int}
use talaria_v.Text.Unicode.{Unicode}
use talaria_v.Identity.{text_le}
use talaria_v.Assertion.{dedup_texts}
use talaria_v.PlaceQuality.{starts_with_any}
use talaria_v.Wiki.{get_from}
use talaria_v.Wiki.Links.{WikiLink, extract_wikilinks}
use talaria_v.Wiki.Infobox.{InfoboxField, parse_infobox_fields}
use talaria_v.Wiki.Infobox.Keys.{
  normalize_infobox_key, is_birth_place_key, is_death_place_key, is_residence_key,
  is_birth_date_key, is_death_date_key,
}

pub record InfoboxLifeFacts : Type 0 where
  pub birth_place : Option Text
  pub death_place : Option Text
  pub birth_year : Option Text
  pub death_year : Option Text
  pub residences : List Text

-- `a.or_else(b)`
abbrev or_else : Option Text → Option Text → Option Text
or_else none other = other
or_else (some s) other = some s

-- The first part of a date template that is four digits.
unfoldable pub template_year : List Text → Option Text
unfolding trim trim_end_matches byte_len is_ascii_digit
template_year [] = none
template_year (part ∷ parts) =
    let p = trim_end_matches (λ c. c == b'}') (trim part) in
    let rest = template_year parts in
    if byte_len p == 4 && all is_ascii_digit p then some p else rest

abbrev year_or : Option ℤ → Option Text → Option Text
year_or none rest = rest
year_or (some y) rest = if leb_ℤ (pos 1000) y && leb_ℤ y (pos 2100) then some (show_int y) else rest

unfoldable pub plain_year : List Text → Option Text
unfolding byte_len parse_i32 show_int
plain_year [] = none
plain_year (w ∷ ws) =
    let rest = plain_year ws in if byte_len w == 4 then year_or (parse_i32 w) rest else rest

unfoldable pub year_in_value : Unicode → Text → Option Text
unfolding contains codes template_year plain_year split is_ascii_digit
year_in_value u value =
    let lower = u.to_lowercase value in
    let plain = plain_year (split (λ c. not (is_ascii_digit c)) value) in
    if contains lower (codes "birth date") || contains lower (codes "death date")
    then or_else (template_year (split (λ c. c == b'|') value)) plain
    else plain

abbrev trim_matches : (ℕ → Bool) → Text → Text
trim_matches p s = trim_end_matches p (trim_start_matches p s)

abbrev head_or : List Text → Text → Text
head_or [] d = d
head_or (s ∷ ss) d = s

module _ (u : Unicode) where
  abbrev is_edge : ℕ → Bool
  is_edge c = not (u.is_alphabetic c) && not (c == b' ') && not (c == b'-') && not (c == b'\'')

  -- The words behind a cue, up to the end of the phrase.
  unfoldable pub place_token : Text → Text
  unfolding trim split trim_start_matches trim_end_matches
  place_token behind =
      let after = trim behind in
      trim_matches is_edge
        (trim (head_or (split (λ c. c == b'|' || c == b'}' || c == b',' || c == b'<') after) after))

  -- The loop over the cues. The offset was found in the lower-case value.
  unfoldable pub place_by_cue : Text → Text → List String → Option (Option Text)
  unfolding text_before codes get_from byte_len place_token
  place_by_cue lower value [] = some none
  place_by_cue lower value (cue ∷ cues) =
      let rest = place_by_cue lower value cues in
      elim (text_before (codes cue) lower) [
        | none ↦ rest
        | some before ↦ elim (get_from value (byte_len before + byte_len (codes cue))) [
          | none ↦ none
          | some behind ↦
              if leb 2 (byte_len (place_token behind))
              then some (some (place_token behind))
              else rest
        ]
      ]

  abbrev is_capital : Option ℕ → Bool
  is_capital none = false
  is_capital (some c) = u.is_uppercase c

  unfoldable pub plain_place : Text → Option Text
  unfolding trim trim_start_matches trim_end_matches contains codes starts_with_any split byte_len
  plain_place value =
      let clean =
        trim_end_matches (λ c. c == b'}' || c == b'|')
          (trim_start_matches (λ c. c == b'{' || c == b'|') (trim value)) in
      let first_part = trim_matches is_edge (trim (head_or (split (λ c. c == b',') clean) clean)) in
      if is_empty clean
        || contains clean (codes "{{")
        || starts_with_any clean ("death" ∷ "birth" ∷ [])
      then none
      else if leb 2 (byte_len first_part) && is_capital (first first_part)
      then some first_part
      else none

  abbrev cue_or_plain : Text → Option (Option Text) → Option (Option Text)
  cue_or_plain value none = none
  cue_or_plain value (some none) = some (plain_place value)
  cue_or_plain value (some (some token)) = some (some token)

  abbrev link_or : Text → List WikiLink → Option (Option Text)
  link_or value (link ∷ links) = some (some link.display)
  link_or value [] =
      cue_or_plain value
        (place_by_cue (u.to_lowercase value) value (" à " ∷ "|à " ∷ " at " ∷ " in " ∷ []))

  unfoldable pub first_place_in_value : Text → Option (Option Text)
  unfolding extract_wikilinks place_by_cue plain_place
  first_place_in_value value = link_or value (extract_wikilinks u value)

  abbrev option_list : Option Text → List Text
  option_list none = []
  option_list (some s) = s ∷ []

  abbrev displays_or : Text → List WikiLink → Option (List Text)
  displays_or value (link ∷ links) =
      some (keep (λ s. leb 2 (length s)) (map (λ l. l.display) (link ∷ links)))
  displays_or value [] = do place ← first_place_in_value value; some (option_list place)

  unfoldable pub places_in_value : Text → Option (List Text)
  unfolding extract_wikilinks first_place_in_value
  places_in_value value = displays_or value (extract_wikilinks u value)

  -- `if facts.birth_place.is_none() { facts.birth_place = first_place_in_value(value) }`
  abbrev kept_or_place : Option Text → Text → Option (Option Text)
  kept_or_place (some p) value = some (some p)
  kept_or_place none value = first_place_in_value value

  unfoldable pub apply_field : InfoboxLifeFacts → InfoboxField → Option InfoboxLifeFacts
  unfolding normalize_infobox_key is_birth_place_key is_death_place_key is_residence_key
      is_birth_date_key is_death_date_key first_place_in_value places_in_value year_in_value
  apply_field facts field =
      let key = normalize_infobox_key u field.key in
      if is_birth_place_key key
      then first_place_in_value field.value
        >>= (λ place. some (record facts { birth_place = place }))
      else if is_death_place_key key
      then first_place_in_value field.value
        >>= (λ place. some (record facts { death_place = place }))
      else if is_residence_key key
      then places_in_value field.value
        >>= (λ places. some (record facts { residences = facts.residences ++ places }))
      else if is_birth_date_key key
      then kept_or_place facts.birth_place field.value >>= (λ place.
        some (record facts { birth_year = year_in_value u field.value; birth_place = place }))
      else if is_death_date_key key
      then kept_or_place facts.death_place field.value >>= (λ place.
        some (record facts { death_year = year_in_value u field.value; death_place = place }))
      else some facts

  unfoldable pub apply_fields : InfoboxLifeFacts → List InfoboxField → Option InfoboxLifeFacts
  unfolding apply_field
  apply_fields facts [] = some facts
  apply_fields facts (field ∷ fields) = do next ← apply_field facts field; apply_fields next fields

  unfoldable pub infobox_life_facts : Text → Option InfoboxLifeFacts
  unfolding parse_infobox_fields apply_fields sort_by text_le dedup_texts
  infobox_life_facts wikitext = do
    fields ← parse_infobox_fields u wikitext
    facts ←
        apply_fields
          (record {
            birth_place = none;
            death_place = none;
            birth_year = none;
            death_year = none;
            residences = [];
          })
          fields
    some (record facts { residences = dedup_texts (sort_by text_le facts.residences) })
