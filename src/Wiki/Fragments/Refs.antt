-- ===== src/Wiki/Fragments/Refs.antt =====
-- The references of a wikitext: `locate_refs` of crates/talaria-text/src/fragments.rs.
use talaria_v.Base.{
  ℕ, zero, suc, ◌+◌, ℤ, Bool, true, false, ◌&&◌, ◌||◌, List, [], ◌∷◌, Option, none, some, ◌==◌,
  if◌then◌else◌, is_empty, length, take, drop, map,
}
use talaria_v.Text.{
  Text, codes, text_eq, trim, trim_start_matches, trim_end_matches, starts_with, is_whitespace,
  to_ascii_lowercase, is_ascii_alphanumeric,
}
use talaria_v.Text.Find.{find_split, text_before}
use talaria_v.PlaceQuality.{ends_with}
use talaria_v.Wiki.Sections.{as_i32}

pub record FragmentCitation : Type 0 where
  pub ref_name : Option Text
  pub text : Text

pub record LocatedRef : Type 0 where
  pub citation : FragmentCitation
  pub start_char : ℤ

-- The text before the first occurrence, and the text from it on; the needle is in lower case.
unfoldable pub find_ascii_ci : Text → Text → Option (Text × Text)
unfolding starts_with to_ascii_lowercase
find_ascii_ci [] needle = none
find_ascii_ci (c ∷ s) needle =
    let rest = find_ascii_ci s needle in
    if starts_with (to_ascii_lowercase (c ∷ s)) needle
    then some ([], c ∷ s)
    else elim rest [ none ↦ none | some (before, from) ↦ some (c ∷ before, from) ]

abbrev ends_tag : Text → Bool
ends_tag [] = true
ends_tag (c ∷ s) = c == b'>' || c == b'/' || c == b' ' || c == b'\t' || c == b'\n' || c == b'\r'

-- On the text from the offset on.
unfoldable pub is_ref_open_at : Text → Bool
unfolding text_eq to_ascii_lowercase codes
is_ref_open_at s = text_eq (to_ascii_lowercase (take 4 s)) (codes "<ref") && ends_tag (drop 4 s)

abbrev is_name_char : ℕ → Bool
is_name_char c = is_ascii_alphanumeric c || c == b'_' || c == b'-' || c == b':'

unfoldable pub take_while : (ℕ → Bool) → Text → Text
take_while p [] = []
take_while p (c ∷ s) = let rest = take_while p s in if p c then c ∷ rest else []

abbrev present_name : Text → Option Text
present_name s = if is_empty s then none else some s

-- The value of the attribute behind its `=`.
unfoldable pub attribute_value : Text → Option Text
unfolding text_before codes take_while is_ascii_alphanumeric
attribute_value [] = none
attribute_value (c ∷ rest) =
    if c == b'"'
    then text_before (codes "\"") rest
    else if c == b'\''
    then text_before (codes "'") rest
    else present_name (take_while is_name_char (c ∷ rest))

abbrev behind_equals : Text → Option Text
behind_equals [] = none
behind_equals (c ∷ s) =
    if c == b'=' then attribute_value (trim_start_matches is_whitespace s) else none

abbrev behind_name : Text → Option Text → Option Text
behind_name attrs none = none
behind_name attrs (some before) =
    behind_equals (trim_start_matches is_whitespace (drop (length before + 4) attrs))

unfoldable pub parse_ref_name : Text → Option Text
unfolding text_before codes to_ascii_lowercase trim_start_matches is_whitespace attribute_value
parse_ref_name attrs = behind_name attrs (text_before (codes "name") (to_ascii_lowercase attrs))

-- On fuel: each round passes a character or a tag; `i` characters are before the text.
unfoldable pub locate_refs_from : ℕ → ℕ → Text → List LocatedRef
unfolding is_ref_open_at find_split codes trim_end_matches is_whitespace ends_with find_ascii_ci
    parse_ref_name trim
locate_refs_from zero i s = []
locate_refs_from (suc fuel) i [] = []
locate_refs_from (suc fuel) i (c ∷ s) = elim (is_ref_open_at (c ∷ s)) [
  | false ↦ locate_refs_from fuel (i + 1) s
  | true ↦ elim (find_split (codes ">") (drop 4 (c ∷ s))) [
    | none ↦ []
    | some (attrs, behind) ↦
        let next = i + 4 + length attrs + 1 in
        elim (ends_with (trim_end_matches is_whitespace attrs) (codes "/")) [
          | true ↦ locate_refs_from fuel next behind
          | false ↦ elim (find_ascii_ci behind (codes "</ref>")) [
            | none ↦ locate_refs_from fuel next behind
            | some (text, close) ↦
                record {
                  citation = record { ref_name = parse_ref_name attrs; text = trim text };
                  start_char = as_i32 i;
                }
                ∷ locate_refs_from fuel (next + length text + 6) (drop 6 close)
          ]
        ]
  ]
]

unfoldable pub locate_refs : Text → List LocatedRef
unfolding locate_refs_from
locate_refs wikitext = locate_refs_from (length wikitext) 0 wikitext

unfoldable pub extract_refs : Text → List FragmentCitation
unfolding locate_refs
extract_refs wikitext = map (λ r. r.citation) (locate_refs wikitext)
