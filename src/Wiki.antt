-- ===== src/Wiki.antt =====
-- Wikitext as the crate talaria-text reads it: lines, templates and slices that the children share.
-- An offset that the program keeps only to slice at is here the text behind it.
pub mod Plain
pub mod Sections
pub mod Sentences
pub mod Links
pub mod Infobox
pub mod Fragments
pub mod Rounds
use talaria_v.Base.{
  ℕ, zero, suc, ◌-◌, Bool, true, false, ◌&&◌, List, [], ◌∷◌, ◌++◌, Option, none, some, leb, ◌==◌,
  if◌then◌else◌, is_empty, length, map,
}
use talaria_v.Text.{Text, starts_with}
use talaria_v.Text.Bytes.{is_char_boundary, take_bytes, drop_bytes}

-- `s.get(at..)` and `s.get(a..b)`
unfoldable pub get_from : Text → ℕ → Option Text
unfolding is_char_boundary drop_bytes
get_from s at = if is_char_boundary s at then some (drop_bytes at s) else none

unfoldable pub get_range : Text → ℕ → ℕ → Option Text
unfolding is_char_boundary drop_bytes take_bytes
get_range s a b =
    if leb a b && is_char_boundary s a && is_char_boundary s b
    then some (take_bytes (b - a) (drop_bytes a s))
    else none

-- `s.split_inclusive('\n')`: the lines with their ends.
abbrev pub onto_first : ℕ → List Text → List Text
onto_first c [] = (c ∷ []) ∷ []
onto_first c (l ∷ ls) = (c ∷ l) ∷ ls

unfoldable pub split_inclusive : Text → List Text
split_inclusive [] = []
split_inclusive (c ∷ s) =
    let rest = split_inclusive s in if c == b'\n' then (c ∷ []) ∷ rest else onto_first c rest

-- A line without its `\n` or `\r\n`.
unfoldable pub strip_line_end : Text → Text
strip_line_end [] = []
strip_line_end (c ∷ []) = if c == b'\n' then [] else c ∷ []
strip_line_end (c ∷ d ∷ s) =
    let rest = strip_line_end (d ∷ s) in
    if is_empty s && c == b'\r' && d == b'\n' then [] else c ∷ rest

-- `s.lines()`
unfoldable pub lines : Text → List Text
unfolding split_inclusive strip_line_end
lines s = map strip_line_end (split_inclusive s)

-- The loop of `find_template_end` behind the first `{{`: the text behind the `}}` that closes it.
unfoldable pub template_rest_at : ℕ → Text → Option Text
template_rest_at depth [] = none
template_rest_at depth (c ∷ []) = none
template_rest_at depth (c ∷ d ∷ s) = elim (c == b'{' && d == b'{') [
  | true ↦ template_rest_at (suc depth) s
  | false ↦ elim (c == b'}' && d == b'}') [
    | true ↦ elim (depth == 1) [ true ↦ some s | false ↦ template_rest_at (depth - 1) s ]
    | false ↦ template_rest_at depth (d ∷ s)
  ]
]

unfoldable pub find_template_end : Text → Option Text
unfolding template_rest_at
find_template_end after = template_rest_at 1 after

-- `s.replace(needle, "")`; `skip` characters of an occurrence are still to be passed.
unfoldable pub erase_from : Text → ℕ → Text → Text
unfolding starts_with
erase_from needle skip [] = []
erase_from needle (suc skip) (c ∷ s) = erase_from needle skip s
erase_from needle zero (c ∷ s) = elim (starts_with (c ∷ s) needle) [
  | true ↦ erase_from needle (length needle - 1) s
  | false ↦ c ∷ erase_from needle zero s
]

unfoldable pub erase : Text → Text → Text
unfolding erase_from
erase needle s = erase_from needle zero s
