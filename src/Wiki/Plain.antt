-- ===== src/Wiki/Plain.antt =====
-- The plain text of a wikitext: crates/talaria-text/src/wikitext.rs (lines 1 to 205).
pub mod Clean
pub mod Steps
pub mod Words
mod Tests
use talaria_v.Base.{
  ℕ, zero, suc, ◌+◌, Bool, true, false, not, ◌&&◌, ◌||◌, List, [], ◌∷◌, ◌++◌, Option, none, some,
  ltb, ◌==◌, if◌then◌else◌, is_empty, keep, length, take, drop,
}
use talaria_v.Text.{Text, codes, text_eq, split, starts_with, trim, join, byte_len, is_whitespace}
use talaria_v.Text.Find.{find_split}
use talaria_v.Text.Bytes.{drop_bytes}
use talaria_v.Text.Unicode.{Unicode}
use talaria_v.Wiki.{find_template_end, lines, erase}

-- On fuel: each round takes a comment off.
unfoldable pub strip_comments : ℕ → Text → Text
unfolding find_split codes
strip_comments zero rest = rest
strip_comments (suc fuel) rest = elim (find_split (codes "<!--") rest) [
  | none ↦ rest
  | some (before, behind) ↦ elim (find_split (codes "-->") (codes "<!--" ++ behind)) [
    | none ↦ before ++ rest
    | some (comment, after) ↦ before ++ strip_comments fuel after
  ]
]

unfoldable pub strip_html_comments : Text → Text
unfolding strip_comments
strip_html_comments input = strip_comments (length input) input

-- What is before the first match, and the text from the match on.
unfoldable pub find_match : Unicode → Text → Text → Option (Text × Text)
unfolding text_eq
find_match u needle [] = none
find_match u needle (c ∷ s) =
    let rest = find_match u needle s in
    if text_eq (u.to_lowercase (take (length needle) (c ∷ s))) needle
    then some ([], c ∷ s)
    else elim rest [ none ↦ none | some (before, from) ↦ some (c ∷ before, from) ]

unfoldable pub find_case_insensitive : Unicode → Text → Text → Option (Text × Text)
unfolding find_match
find_case_insensitive u haystack needle =
    let needle_lower = u.to_lowercase needle in
    if is_empty needle_lower then some ([], haystack) else find_match u needle_lower haystack

unfoldable pub strip_block_from : Unicode → Text → ℕ → Text → Text
unfolding find_case_insensitive codes drop_bytes byte_len
strip_block_from u tag zero text = text
strip_block_from u tag (suc fuel) text =
    let close = codes "</" ++ (tag ++ codes ">") in
    elim (find_case_insensitive u text (codes "<" ++ tag)) [
      | none ↦ text
      | some (before, from) ↦ elim (find_case_insensitive u from close) [
        | none ↦ before ++ codes " "
        | some (block, at) ↦ elim (ltb (byte_len at) (byte_len close)) [
          | true ↦ before ++ codes " "
          | false ↦ strip_block_from u tag fuel (before ++ b' ' ∷ drop_bytes (byte_len close) at)
        ]
      ]
    ]

unfoldable pub strip_block_tags : Unicode → Text → Text → Text
unfolding strip_block_from
strip_block_tags u input tag = strip_block_from u tag (length input) input

unfoldable pub strip_self_closing_from : Unicode → Text → ℕ → Text → Text
unfolding find_case_insensitive codes find_split
strip_self_closing_from u tag zero text = text
strip_self_closing_from u tag (suc fuel) text =
    elim (find_case_insensitive u text (codes "<" ++ tag)) [
      | none ↦ text
      | some (before, from) ↦ elim (find_split (codes ">") from) [
        | none ↦ text
        | some (block, behind) ↦ strip_self_closing_from u tag fuel (before ++ b' ' ∷ behind)
      ]
    ]

unfoldable pub strip_self_closing_tags : Unicode → Text → Text → Text
unfolding strip_self_closing_from
strip_self_closing_tags u input tag = strip_self_closing_from u tag (length input) input

unfoldable pub remove_templates_from : ℕ → Text → Text
unfolding find_split codes find_template_end
remove_templates_from zero text = text
remove_templates_from (suc fuel) text = elim (find_split (codes "{{") text) [
  | none ↦ text
  | some (before, after) ↦ elim (find_template_end after) [
    | none ↦ before ++ b' ' ∷ after
    | some behind ↦ remove_templates_from fuel (before ++ b' ' ∷ behind)
  ]
]

unfoldable pub remove_templates : Text → Text
unfolding remove_templates_from
remove_templates input = remove_templates_from (length input) input

-- `inner.split('|').next_back().unwrap_or(inner)`
unfoldable pub last_piece : Text → List Text → Text
last_piece d [] = d
last_piece d (p ∷ ps) = last_piece p ps

unfoldable pub link_text : Unicode → Text → Text
unfolding last_piece split starts_with trim codes
link_text u inner =
    let target = trim (last_piece inner (split (λ c. c == b'|') inner)) in
    let lower = u.to_lowercase target in
    if not (starts_with lower (codes "file:"))
      && not (starts_with lower (codes "image:"))
      && not (starts_with lower (codes "category:"))
    then target ++ codes " "
    else []

unfoldable pub simplify_links_from : Unicode → ℕ → Text → Text
unfolding find_split link_text codes
simplify_links_from u zero rest = rest
simplify_links_from u (suc fuel) rest = elim (find_split (codes "[[") rest) [
  | none ↦ rest
  | some (before, after) ↦ elim (find_split (codes "]]") after) [
    | none ↦ before ++ rest
    | some (inner, behind) ↦ before ++ (link_text u inner ++ simplify_links_from u fuel behind)
  ]
]

unfoldable pub simplify_wiki_links : Unicode → Text → Text
unfolding simplify_links_from
simplify_wiki_links u input = simplify_links_from u (length input) input

unfoldable pub strip_tags_in : Bool → Text → Text
strip_tags_in in_tag [] = []
strip_tags_in in_tag (c ∷ s) = elim (c == b'<') [
  | true ↦ strip_tags_in true s
  | false ↦ elim (c == b'>') [
    | true ↦ strip_tags_in false s
    | false ↦ let rest = strip_tags_in in_tag s in if not in_tag then c ∷ rest else rest
  ]
]

unfoldable pub strip_remaining_html_tags : Text → Text
unfolding strip_tags_in
strip_remaining_html_tags input = strip_tags_in false input

abbrev pub keeps_line : Text → Bool
keeps_line line =
    let trimmed = trim line in
    not (starts_with trimmed (codes "[[Category:"))
    && not (starts_with trimmed (codes "[[category:"))
    && not (is_empty trimmed)

unfoldable pub strip_category_lines : Text → Text
unfolding trim starts_with codes lines join
strip_category_lines input = join (keep keeps_line (lines input)) (codes "\n")

unfoldable pub collapse_from : Bool → Text → Text
unfolding is_whitespace
collapse_from prev_space [] = []
collapse_from prev_space (c ∷ s) = elim (is_whitespace c) [
  | true ↦ let rest = collapse_from true s in if not prev_space then b' ' ∷ rest else rest
  | false ↦ c ∷ collapse_from false s
]

unfoldable pub collapse_whitespace : Text → Text
unfolding collapse_from trim
collapse_whitespace input = trim (collapse_from false input)

unfoldable pub wikitext_to_plain : Unicode → Text → Text
unfolding codes
wikitext_to_plain u input =
    let text = strip_html_comments input in
    let text = strip_block_tags u text (codes "ref") in
    let text = strip_self_closing_tags u text (codes "ref") in
    let text = remove_templates text in
    let text = simplify_wiki_links u text in
    let text = strip_remaining_html_tags text in
    let text = strip_category_lines text in
    let text = erase (codes "''") (erase (codes "'''") text) in collapse_whitespace text
