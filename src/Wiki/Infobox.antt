-- ===== src/Wiki/Infobox.antt =====
-- The infobox of a wikitext: its fields and the facts of a life that they tell
-- (crates/talaria-text/src/infobox.rs). A slice that would panic makes the result `none`.
pub mod Keys
pub mod Nested
pub mod RoundTrip
pub mod Facts
mod Tests
use talaria_v.Base.{
  ℕ, zero, suc, ◌+◌, ◌-◌, Bool, true, false, not, ◌&&◌, ◌||◌, List, [], ◌∷◌, ◌++◌, Option, none,
  some, ◌>>=◌, ltb, ◌==◌, if◌then◌else◌, is_empty, any, unwrap_or,
}
use talaria_v.Text.{Text, codes, trim, byte_len, contains, starts_with, is_whitespace}
use talaria_v.Text.Find.{text_before}
use talaria_v.Text.Bytes.{drop_bytes}
use talaria_v.Text.Unicode.{Unicode}
use talaria_v.Wiki.{get_range, find_template_end}
use talaria_v.Wiki.Links.{split_once}

pub record InfoboxField : Type 0 where
  pub key : Text
  pub value : Text

-- `find_template_end(wikitext, start)`, as the offset behind the end.
abbrev offset_behind : Text → Option Text → Option ℕ
offset_behind wikitext none = none
offset_behind wikitext (some behind) = some (byte_len wikitext - byte_len behind)

-- The text from `start + 2` to `end - 2`. The offset was found in the lower-case text.
abbrev body_between : Text → ℕ → Option ℕ → Option (Option Text)
body_between wikitext start none = some none
body_between wikitext start (some end) = do
  inner ← get_range wikitext (start + 2) (end - 2)
  some (some inner)

abbrev body_from : Text → Option Text → Option (Option Text)
body_from wikitext none = some none
body_from wikitext (some before) =
    let start = byte_len before in
    body_between wikitext start
      (offset_behind wikitext (find_template_end (drop_bytes (start + 2) wikitext)))

unfoldable pub first_infobox_body : Unicode → Text → Option (Option Text)
unfolding text_before codes get_range find_template_end byte_len drop_bytes
first_infobox_body u wikitext =
    body_from wikitext (text_before (codes "{{infobox") (u.to_lowercase wikitext))

-- The field that the text between two bars tells, if any.
unfoldable pub field_of : Unicode → Text → Option InfoboxField
unfolding trim contains codes split_once byte_len starts_with is_whitespace
field_of u raw =
    let text = trim raw in
    let parts = split_once b'=' text in
    let key = trim parts.0 in
    let value = trim (unwrap_or parts.1 []) in
    if is_empty text || not (contains text (codes "="))
    then none
    else if is_empty key || any is_whitespace key && ltb 40 (byte_len key)
    then none
    else if starts_with (u.to_lowercase key) (codes "infobox")
    then none
    else some (record { key = key; value = value })

abbrev pub add_field : List InfoboxField → Option InfoboxField → List InfoboxField
add_field fields none = fields
add_field fields (some f) = fields ++ f ∷ []

abbrev pub push_field : Unicode → List InfoboxField → Text → List InfoboxField
push_field u fields raw = add_field fields (field_of u raw)

-- The variables of the loop over the characters. The depths are `i32` and never below 0.
pub record FieldLoop : Type 0 where
  pub fields : List InfoboxField
  pub current : Text
  pub depth_brace : ℕ
  pub depth_link : ℕ

unfoldable pub at_char : Unicode → FieldLoop → ℕ → FieldLoop
unfolding field_of
at_char u x ch =
    let longer = x.current ++ ch ∷ [] in
    if ch == b'{'
    then record x { current = longer; depth_brace = x.depth_brace + 1 }
    else if ch == b'}'
    then record x { current = longer; depth_brace = x.depth_brace - 1 }
    else if ch == b'['
    then record x { current = longer; depth_link = x.depth_link + 1 }
    else if ch == b']'
    then record x { current = longer; depth_link = x.depth_link - 1 }
    else if ch == b'|' && x.depth_brace == 0 && x.depth_link == 0
    then record x { fields = push_field u x.fields x.current; current = [] }
    else record x { current = longer }

unfoldable pub at_chars : Unicode → FieldLoop → Text → FieldLoop
unfolding at_char
at_chars u x [] = x
at_chars u x (ch ∷ body) = at_chars u (at_char u x ch) body

abbrev pub no_fields : FieldLoop
no_fields = record { fields = []; current = []; depth_brace = 0; depth_link = 0 }

unfoldable pub parse_template_fields : Unicode → Text → List InfoboxField
unfolding at_chars field_of
parse_template_fields u body = let x = at_chars u no_fields body in push_field u x.fields x.current

abbrev fields_of_body : Unicode → Option Text → List InfoboxField
fields_of_body u none = []
fields_of_body u (some body) = parse_template_fields u body

unfoldable pub parse_infobox_fields : Unicode → Text → Option (List InfoboxField)
unfolding first_infobox_body parse_template_fields
parse_infobox_fields u wikitext = do
  body ← first_infobox_body u wikitext
  some (fields_of_body u body)
