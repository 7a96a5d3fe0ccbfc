-- ===== src/Wiki/Sections.antt =====
-- The sections of a wikitext: crates/talaria-text/src/sections.rs.
pub mod Offsets
pub mod Ends
pub mod Slices
pub mod Loop
pub mod Sound
mod Tests
use talaria_v.Base.{
  ℕ, zero, suc, ◌+◌, ◌-◌, ℤ, pos, Bool, true, false, not, ◌&&◌, ◌||◌, List, [], ◌∷◌, ◌++◌, Option,
  none, some, ltb, ◌==◌, if◌then◌else◌, is_empty, length, unwrap_or, wrap32, add_i32, eqb_ℤ,
}
use talaria_v.Text.{
  Text, codes, starts_with, contains, trim, trim_start_matches, trim_end_matches, byte_len,
  is_whitespace,
}
use talaria_v.PlaceQuality.{ends_with}
use talaria_v.Wiki.{get_from, get_range, lines}

pub record WikiSectionSpan : Type 0 where
  pub ordinal : ℤ
  pub title : Text
  pub wikitext : Text
  pub start_offset : ℤ
  pub end_offset : ℤ

unfoldable pub newline_len : Text → ℕ → ℕ
unfolding get_from starts_with codes
newline_len s at =
    let rest = unwrap_or (get_from s at) [] in
    if starts_with rest (codes "\r\n") then 2 else if starts_with rest (codes "\n") then 1 else 0

-- `n as i32`
abbrev pub as_i32 : ℕ → ℤ
as_i32 n = wrap32 n 0

abbrev count_or : Option Text → Text → ℤ
count_or (some prefix) s = as_i32 (length prefix)
count_or none s = as_i32 (length s)

unfoldable pub char_offset : Text → ℕ → ℤ
unfolding get_range wrap32
char_offset s byte = count_or (get_range s 0 byte) s

-- `chars().take_while(|c| *c == '=').count()`, from the left and from the right.
unfoldable pub leading_equals : Text → ℕ
leading_equals [] = 0
leading_equals (c ∷ s) = let rest = leading_equals s in if c == b'=' then suc rest else 0

unfoldable pub trailing_equals : Text → ℕ
trailing_equals [] = 0
trailing_equals (c ∷ s) =
    let rest = trailing_equals s in if c == b'=' && rest == length s then suc rest else rest

abbrev is_mark : ℕ → Bool
is_mark c = c == b'='

unfoldable pub parse_heading : Text → Option Text
unfolding trim starts_with ends_with codes trim_start_matches trim_end_matches contains
    leading_equals trailing_equals
parse_heading line =
    let trimmed = trim line in
    let without = trim (trim_end_matches is_mark (trim_start_matches is_mark trimmed)) in
    if not (starts_with trimmed (codes "==")) || not (ends_with trimmed (codes "=="))
    then none
    else if is_empty without || contains without (codes "==")
    then none
    else if ltb (leading_equals trimmed) 2 || ltb (trailing_equals trimmed) 2
    then none
    else some without

-- The span of the section whose untrimmed text is `raw`.
unfoldable pub span_of : Text → ℤ → Text → ℕ → Text → WikiSectionSpan
unfolding trim trim_start_matches is_whitespace byte_len char_offset
span_of wikitext ordinal title body_start raw =
    let body = trim raw in
    let leading = byte_len raw - byte_len (trim_start_matches is_whitespace raw) in
    let start_byte = body_start + leading in
    let end_byte = start_byte + byte_len body in
    record {
      ordinal = ordinal;
      title = title;
      wikitext = body;
      start_offset = char_offset wikitext start_byte;
      end_offset = char_offset wikitext end_byte;
    }

unfoldable pub push_section : List WikiSectionSpan → Text → ℤ → Text → ℕ → ℕ → List WikiSectionSpan
unfolding get_range span_of
push_section sections wikitext ordinal title body_start body_end =
    let raw = unwrap_or (get_range wikitext body_start body_end) [] in
    sections ++ span_of wikitext ordinal title body_start raw ∷ []

-- The variables of the loop over the lines.
pub record Splitter : Type 0 where
  pub sections : List WikiSectionSpan
  pub current_title : Text
  pub ordinal : ℤ
  pub body_start : ℕ
  pub byte_pos : ℕ

-- The section before a heading is pushed if it has text, or is the first.
unfoldable pub pushes : Text → Splitter → Bool
unfolding get_range trim
pushes wikitext x =
    let raw = unwrap_or (get_range wikitext x.body_start x.byte_pos) [] in
    not (is_empty (trim raw)) || eqb_ℤ x.ordinal (pos 0)

-- At a heading that ends at `next`.
unfoldable pub at_heading : Text → Text → ℕ → Splitter → Splitter
unfolding pushes push_section add_i32
at_heading wikitext title next x =
    if pushes wikitext x
    then record {
      sections = push_section x.sections wikitext x.ordinal x.current_title x.body_start x.byte_pos;
      current_title = title;
      ordinal = add_i32 x.ordinal (pos 1);
      body_start = next;
      byte_pos = next;
    }
    else record x { current_title = title; body_start = next; byte_pos = next }

unfoldable pub at_line : Text → Splitter → Text → Splitter
unfolding byte_len newline_len parse_heading at_heading
at_line wikitext x line =
    let line_end = x.byte_pos + byte_len line in
    let next = line_end + newline_len wikitext line_end in
    elim (parse_heading line) [
      | none ↦ record x { byte_pos = next }
      | some title ↦ at_heading wikitext title next x
    ]

unfoldable pub at_lines : Text → Splitter → List Text → Splitter
unfolding at_line
at_lines wikitext x [] = x
at_lines wikitext x (line ∷ rest) = at_lines wikitext (at_line wikitext x line) rest

unfoldable pub pushes_last : Text → Splitter → Bool
unfolding get_from trim
pushes_last wikitext x =
    let raw = unwrap_or (get_from wikitext x.body_start) [] in
    not (is_empty (trim raw)) || is_empty x.sections

unfoldable pub last_section : Text → Splitter → List WikiSectionSpan
unfolding pushes_last push_section byte_len
last_section wikitext x =
    if pushes_last wikitext x
    then push_section x.sections wikitext x.ordinal x.current_title x.body_start (byte_len wikitext)
    else x.sections

abbrev pub initial : Splitter
initial = record {
  sections = [];
  current_title = codes "Lead";
  ordinal = pos 0;
  body_start = 0;
  byte_pos = 0;
}

unfoldable pub split_wiki_sections : Text → List WikiSectionSpan
unfolding at_lines last_section lines codes
split_wiki_sections wikitext = last_section wikitext (at_lines wikitext initial (lines wikitext))
