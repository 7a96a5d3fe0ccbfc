-- ===== src/Wiki/Sentences.antt =====
-- The sentences of a text: crates/talaria-text/src/sentences.rs. A slice that would panic, at an
-- offset that is out of order or inside a character, makes the result `none`.
pub mod Boundaries
pub mod Order
pub mod Headings
pub mod Cuts
pub mod Parts
pub mod Sound
mod Tests
use mathlib.Core.List.{reverse}
use talaria_v.Base.{
  ℕ, zero, suc, ◌+◌, ◌-◌, ℤ, String, Bool, true, false, not, ◌&&◌, ◌||◌, List, [], ◌∷◌, ◌++◌,
  Option, none, some, ◌>>=◌, ltb, leb, ◌==◌, if◌then◌else◌, is_empty, length, any, drop, take,
}
use talaria_v.Base.Sort.{sort_by}
use talaria_v.Text.{
  Text, codes, starts_with, trim, trim_start_matches, byte_len, utf8_width, is_whitespace,
  is_ascii_digit,
}
use talaria_v.Text.Bytes.{drop_bytes}
use talaria_v.Text.Unicode.{Unicode}
use talaria_v.Wiki.{get_range}
use talaria_v.Wiki.Sections.{as_i32, leading_equals}
use talaria_v.Wiki.Plain.{wikitext_to_plain}

pub record SentenceSpan : Type 0 where
  pub ordinal : ℤ
  pub text : Text
  pub char_start : ℤ
  pub char_end : ℤ

abbrev min_sentence_len : ℕ
min_sentence_len = 12

-- `u8::is_ascii_whitespace` and `is_ascii_uppercase`
abbrev pub is_ascii_whitespace : ℕ → Bool
is_ascii_whitespace c = c == b' ' || c == 9 || c == 10 || c == 12 || c == 13

abbrev is_ascii_uppercase : ℕ → Bool
is_ascii_uppercase c = leb b'A' c && leb c b'Z'

-- How many characters at the front pass the test, and what is behind them.
unfoldable pub count_while : (ℕ → Bool) → Text → ℕ
count_while p [] = 0
count_while p (c ∷ s) = let rest = count_while p s in if p c then suc rest else 0

abbrev starts_name : Text → Bool
starts_name [] = false
starts_name (c ∷ s) = is_ascii_uppercase c || is_ascii_digit c

-- On the text from the offset on.
unfoldable pub is_sentence_start : Text → Bool
unfolding is_ascii_digit
is_sentence_start [] = false
is_sentence_start (first ∷ chars) =
    if is_ascii_uppercase first || is_ascii_digit first
    then true
    else if first == b'"' || first == b'\'' || first == b'('
    then starts_name chars
    else false

abbreviations : List String
abbreviations =
    "Mr." ∷ "Mrs." ∷ "Ms." ∷ "Dr." ∷ "Prof." ∷ "St." ∷ "Jr." ∷ "Sr." ∷ "vs." ∷ "etc." ∷ "e.g."
    ∷ "i.e." ∷ "U.S." ∷ "U.K." ∷ "b." ∷ "d." ∷ "c." ∷ "fl." ∷ "ca." ∷ "approx." ∷ []

-- A digit before the point: no boundary, unless four digits stand there.
abbrev after_digit : Text → Bool
after_digit before = not (leb 4 (count_while is_ascii_digit before))

-- On what is before the point, the nearest character first.
abbrev initial_or_number : Text → Bool
initial_or_number [] = false
initial_or_number (prev ∷ []) = if is_ascii_digit prev then after_digit (prev ∷ []) else false
initial_or_number (prev ∷ prev2 ∷ before) =
    if is_ascii_uppercase prev && (prev2 == b' ' || prev2 == b'\n')
    then true
    else if is_ascii_digit prev
    then after_digit (prev ∷ prev2 ∷ before)
    else false

-- On the text up to the point, the point first.
unfoldable pub is_abbreviation_boundary : Text → Bool
unfolding abbreviations starts_with codes count_while is_ascii_digit
is_abbreviation_boundary [] = false
is_abbreviation_boundary (dot ∷ before) =
    if any (λ abbr. starts_with (dot ∷ before) (reverse (codes abbr))) abbreviations
    then true
    else initial_or_number before

abbrev pub is_terminator : ℕ → Bool
is_terminator c = c == b'.' || c == b'!' || c == b'?'

-- A sentence ends at `c`, and another begins behind the white space.
unfoldable pub ends_sentence : Text → ℕ → Text → Bool
unfolding is_abbreviation_boundary count_while is_sentence_start
ends_sentence before c s =
    is_terminator c
    && not (is_abbreviation_boundary (c ∷ before))
    && is_sentence_start (drop (count_while is_ascii_whitespace s) s)

-- The first loop of `sentence_boundaries`, at the offset `i`.
unfoldable pub sentence_ends : Text → ℕ → Text → List ℕ
unfolding ends_sentence count_while utf8_width
sentence_ends before i [] = []
sentence_ends before i (c ∷ s) =
    let rest = sentence_ends (c ∷ before) (i + utf8_width c) s in
    if ends_sentence before c s then (i + 1 + count_while is_ascii_whitespace s) ∷ rest else rest

abbrev pub not_equals : ℕ → Bool
not_equals c = not (c == b'=')

-- The heading that begins at the front: its marks, its title and its closing marks.
pub record HeadingParts : Type 0 where
  pub marks : ℕ
  pub title : ℕ
  pub closing : ℕ

unfoldable pub heading_parts : Text → HeadingParts
unfolding leading_equals count_while
heading_parts s =
    let marks = leading_equals s in
    let behind = drop marks s in
    let title = count_while not_equals behind in
    record { marks = marks; title = title; closing = leading_equals (drop title behind) }

unfoldable pub is_heading : HeadingParts → Bool
is_heading h = leb 2 h.marks && leb 2 h.closing && ltb 0 h.title

abbrev pub parts_length : HeadingParts → ℕ
parts_length h = h.marks + h.title + h.closing

-- On fuel, from the offset `i` on: each round passes a character or a heading.
unfoldable pub heading_spans_from : ℕ → ℕ → Text → List (ℕ × ℕ)
unfolding byte_len utf8_width heading_parts is_heading
heading_spans_from zero i s = []
heading_spans_from (suc fuel) i [] = []
heading_spans_from (suc fuel) i (c ∷ s) = elim (leb (byte_len (c ∷ s)) 4) [
  | true ↦ []
  | false ↦ elim (is_heading (heading_parts (c ∷ s))) [
    | true ↦
        let n = parts_length (heading_parts (c ∷ s)) in
        let end = i + byte_len (take n (c ∷ s)) in
        (i, end) ∷ heading_spans_from fuel end (drop n (c ∷ s))
    | false ↦ heading_spans_from fuel (i + utf8_width c) s
  ]
]

unfoldable pub wiki_heading_spans : Text → List (ℕ × ℕ)
unfolding heading_spans_from
wiki_heading_spans text = heading_spans_from (length text) 0 text

abbrev pub both_ends : List (ℕ × ℕ) → List ℕ
both_ends [] = []
both_ends ((start, end) ∷ spans) = start ∷ end ∷ both_ends spans

-- `boundaries.dedup()`
unfoldable pub dedup_offsets : List ℕ → List ℕ
dedup_offsets [] = []
dedup_offsets (a ∷ []) = a ∷ []
dedup_offsets (a ∷ b ∷ rest) =
    let others = dedup_offsets (b ∷ rest) in if a == b then others else a ∷ others

unfoldable pub sentence_boundaries : Text → List ℕ
unfolding sentence_ends wiki_heading_spans sort_by dedup_offsets
sentence_boundaries text =
    dedup_offsets (sort_by leb (sentence_ends [] 0 text ++ both_ends (wiki_heading_spans text)))

unfoldable pub is_wiki_heading_slice : Text → Bool
unfolding starts_with trim_start_matches is_whitespace codes
is_wiki_heading_slice slice = starts_with (trim_start_matches is_whitespace slice) (codes "==")

unfoldable pub is_sentence : Unicode → Text → Bool
unfolding byte_len is_wiki_heading_slice
is_sentence u slice =
    not (ltb (byte_len slice) min_sentence_len || not (any u.is_alphabetic slice))
    && not (is_wiki_heading_slice slice)

abbrev pub push_slice : Unicode → List SentenceSpan → ℕ → ℕ → Text → List SentenceSpan
push_slice u spans start end slice =
    if is_sentence u slice
    then spans
      ++ record {
        ordinal = as_i32 (length spans);
        text = slice;
        char_start = as_i32 start;
        char_end = as_i32 end;
      }
        ∷ []
    else spans

unfoldable pub push_sentence :
    Unicode → List SentenceSpan → Text → ℕ → ℕ → Option (List SentenceSpan)
unfolding get_range trim is_sentence
push_sentence u spans text start end = do
  raw ← get_range text start end
  some (push_slice u spans start end (trim raw))

-- The inner loop over the spaces behind a boundary.
unfoldable pub skip_spaces : Text → ℕ → ℕ
unfolding count_while drop_bytes
skip_spaces text start = start + count_while (λ c. c == b' ') (drop_bytes start text)

unfoldable pub split_at_boundaries :
    Unicode → Text → List SentenceSpan → ℕ → List ℕ → Option (List SentenceSpan)
unfolding push_sentence skip_spaces byte_len
split_at_boundaries u text spans start [] =
    if ltb start (byte_len text)
    then push_sentence u spans text start (byte_len text)
    else some spans
split_at_boundaries u text spans start (boundary ∷ boundaries) = do
  pushed ← push_sentence u spans text start boundary
  split_at_boundaries u text pushed (skip_spaces text boundary) boundaries

unfoldable pub split_sentences : Unicode → Text → Option (List SentenceSpan)
unfolding trim split_at_boundaries sentence_boundaries
split_sentences u text =
    let trimmed = trim text in
    if is_empty trimmed
    then some []
    else split_at_boundaries u trimmed [] 0 (sentence_boundaries trimmed)

unfoldable pub segment_wikitext : Unicode → Text → Option (List SentenceSpan)
unfolding wikitext_to_plain split_sentences
segment_wikitext u wikitext = split_sentences u (wikitext_to_plain u wikitext)
