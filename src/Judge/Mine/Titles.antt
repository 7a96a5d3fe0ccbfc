-- ===== src/Judge/Mine/Titles.antt =====
-- What the title of a page names: its subject and its place.
use talaria_v.Base.{
  ℕ, ◌-◌, String, Bool, not, ◌&&◌, ◌||◌, List, [], ◌∷◌, ◌++◌, Option, none, some, ltb, leb, ◌==◌,
  if◌then◌else◌, is_empty, length, all, any, drop, unwrap_or, ℤ, pos, negsuc,
}
use talaria_v.Text.{Text, codes, text_eq, trim, starts_with, split, byte_len, to_ascii_lowercase}
use talaria_v.Text.Find.{text_before}
use talaria_v.Text.Unicode.{Unicode}
use talaria_v.Judge.Place.{find_place_in_text}

pub record Subject : Type 0 where
  pub wiki_title : Text
  pub aliases : List Text
  pub year_min : ℤ
  pub year_max : ℤ

unfoldable pub to_ascii_upper : ℕ → ℕ
to_ascii_upper c = if leb b'a' c && leb c b'z' then c - 32 else c

unfoldable pub is_roman_digit : ℕ → Bool
is_roman_digit c =
    c == b'I' || c == b'V' || c == b'X' || c == b'L' || c == b'C' || c == b'D' || c == b'M'

unfoldable pub is_roman_token : Text → Bool
unfolding to_ascii_upper is_roman_digit
is_roman_token token = not (is_empty token) && all (λ c. is_roman_digit (to_ascii_upper c)) token

-- `s.split('(').next().unwrap_or(s).trim()`
unfoldable pub before_paren : Text → Text
unfolding text_before codes trim
before_paren s = trim (unwrap_or (text_before (codes "(") s) s)

-- The loop over the parts of the title.
unfoldable pub push_aliases : List Text → List Text → List Text
unfolding trim is_roman_token to_ascii_lowercase text_eq
push_aliases aliases [] = aliases
push_aliases aliases (part ∷ parts) =
    let p = trim part in
    let low = to_ascii_lowercase p in
    push_aliases
      (if leb 4 (length p) && not (is_roman_token p) && not (any (λ a. text_eq a low) aliases)
        then aliases ++ low ∷ []
        else aliases)
      parts

module _ (u : Unicode) where
  unfoldable pub subject_from_page : Text → Subject
  unfolding before_paren to_ascii_lowercase push_aliases split
  subject_from_page page_title =
      let title = before_paren page_title in
      let full = to_ascii_lowercase title in
      record {
        wiki_title = title;
        aliases =
            push_aliases (if is_empty full then [] else full ∷ [])
              (split (λ c. not (u.is_alphabetic c) && not (c == b'-')) title);
        year_min = negsuc 3999;
        year_max = pos 2100;
      }

  unfoldable pub resolve_subject : Text → Option Subject
  unfolding trim byte_len subject_from_page
  resolve_subject page_title =
      let title = trim page_title in
      if ltb (byte_len title) 2 then none else some (subject_from_page title)

-- The first prefix that the title has and that leaves a name of two bytes or more.
unfoldable pub behind_prefix : Text → List String → Option Text
unfolding starts_with codes before_paren byte_len
behind_prefix title [] = none
behind_prefix title (prefix ∷ prefixes) =
    let other = behind_prefix title prefixes in
    let name = before_paren (drop (length (codes prefix)) title) in
    if starts_with title (codes prefix) && leb 2 (byte_len name) then some name else other

-- A place that the title is, or begins with if the place has eight bytes or more.
abbrev titled_by : Text → Option Text → Option Text
titled_by stripped none = none
titled_by stripped (some hit) =
    let stripped_lower = to_ascii_lowercase stripped in
    let hit_lower = to_ascii_lowercase hit in
    if text_eq stripped_lower hit_lower
      || starts_with stripped_lower hit_lower && leb 8 (byte_len hit)
    then some hit
    else none

abbrev or_else : Option Text → Option Text → Option Text
or_else none other = other
or_else (some s) other = some s

module _ (to_uppercase : ℕ → Text) where
  unfoldable pub place_from_page_title : Text → Option Text
  unfolding trim behind_prefix before_paren find_place_in_text to_ascii_lowercase text_eq
      starts_with byte_len
  place_from_page_title page_title =
      let title = trim page_title in
      let stripped = before_paren title in
      or_else
        (behind_prefix title (
          "Battle of " ∷ "Bataille de " ∷ "Treaty of " ∷ "Traité de " ∷ "Traite de "
          ∷ "Treaties of " ∷ "Congress of " ∷ "Siege of " ∷ "Siège de " ∷ "Siege de " ∷ "Coup of "
          ∷ []))
        (titled_by stripped (find_place_in_text to_uppercase stripped))

  unfoldable pub resolve_place : Text → Text → Option Text
  unfolding find_place_in_text place_from_page_title
  resolve_place text page_title =
      or_else (find_place_in_text to_uppercase text) (place_from_page_title page_title)
