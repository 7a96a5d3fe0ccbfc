-- ===== src/Text.antt =====
-- Rust's `&str` and `String` as lists of Unicode scalar values, with the methods of `str` and
-- `char` that the program calls. Equal lists are equal UTF-8 texts. What rests on the Unicode
-- tables (case mapping, letters) is the record `Unicode` of Text/Unicode.
pub mod Decimal
pub mod Equality
pub mod Separator
pub mod Unicode
pub mod Sample
pub mod Bytes
pub mod Split
pub mod Find
use Prim.Native.Char.{code}
use talaria_v.Base.{
  ℕ, ◌+◌, ◌-◌, String, Bool, true, false, not, ◌&&◌, ◌||◌, List, [], ◌∷◌, ◌++◌, Option, none, some,
  ltb, leb, ◌==◌, if◌then◌else◌, is_empty, keep,
}

abbrev pub Text : Type 0
Text = List ℕ

-- The scalar values of a literal.
unfoldable pub codes : String → Text
codes String.[] = []
codes (String.◌∷◌ c s) = code c ∷ codes s

unfoldable pub text_eq : Text → Text → Bool
text_eq [] [] = true
text_eq (a ∷ s) (b ∷ t) = a == b && text_eq s t
text_eq [] (b ∷ t) = false
text_eq (a ∷ s) [] = false

-- `s == "literal"`, and a `match` arm on a literal.
unfoldable pub is : Text → String → Bool
unfolding text_eq codes
is s lit = text_eq s (codes lit)

-- `matches!(s, "a" | "b" | …)` and `LIST.contains(&s)`.
unfoldable pub is_one_of : Text → List String → Bool
unfolding is
is_one_of s [] = false
is_one_of s (lit ∷ lits) = is s lit || is_one_of s lits

-- `char::is_ascii_digit` and its kin.
unfoldable pub is_ascii_digit : ℕ → Bool
is_ascii_digit c = leb b'0' c && leb c b'9'

unfoldable pub is_ascii_alphabetic : ℕ → Bool
is_ascii_alphabetic c = leb b'a' c && leb c b'z' || leb b'A' c && leb c b'Z'

unfoldable pub is_ascii_alphanumeric : ℕ → Bool
unfolding is_ascii_digit is_ascii_alphabetic
is_ascii_alphanumeric c = is_ascii_alphabetic c || is_ascii_digit c

unfoldable pub to_ascii_lower : ℕ → ℕ
to_ascii_lower c = if leb b'A' c && leb c b'Z' then c + 32 else c

unfoldable pub to_ascii_lowercase : Text → Text
unfolding to_ascii_lower
to_ascii_lowercase [] = []
to_ascii_lowercase (c ∷ s) = to_ascii_lower c ∷ to_ascii_lowercase s

-- `char::is_whitespace`: the property White_Space, in full.
unfoldable pub is_whitespace : ℕ → Bool
is_whitespace c =
    leb 0x09 c && leb c 0x0d
    || c == 0x20
    || c == 0x85
    || c == 0xa0
    || c == 0x1680
    || leb 0x2000 c && leb c 0x200a
    || c == 0x2028
    || c == 0x2029
    || c == 0x202f
    || c == 0x205f
    || c == 0x3000

-- `trim_start_matches(p)` and `trim_end_matches(p)`.
unfoldable pub trim_start_matches : (ℕ → Bool) → Text → Text
trim_start_matches p [] = []
trim_start_matches p (c ∷ s) = if p c then trim_start_matches p s else c ∷ s

unfoldable pub trim_end_matches : (ℕ → Bool) → Text → Text
trim_end_matches p [] = []
trim_end_matches p (c ∷ s) =
    let rest = trim_end_matches p s in if p c && is_empty rest then [] else c ∷ rest

unfoldable pub trim : Text → Text
unfolding trim_start_matches trim_end_matches is_whitespace
trim s = trim_end_matches is_whitespace (trim_start_matches is_whitespace s)

unfoldable pub starts_with : Text → Text → Bool
starts_with s [] = true
starts_with [] (b ∷ t) = false
starts_with (a ∷ s) (b ∷ t) = a == b && starts_with s t

-- `haystack.contains(needle)`.
unfoldable pub contains : Text → Text → Bool
unfolding starts_with
contains [] t = starts_with [] t
contains (a ∷ s) t = starts_with (a ∷ s) t || contains s t

unfoldable pub contains_any : Text → List String → Bool
unfolding contains codes
contains_any s [] = false
contains_any s (lit ∷ lits) = contains s (codes lit) || contains_any s lits

-- The pieces between the characters that `p` accepts; `cur` is the piece so far.
unfoldable pub split_from : (ℕ → Bool) → Text → Text → List Text
split_from p cur [] = cur ∷ []
split_from p cur (c ∷ s) = elim (p c) [
  | true ↦ cur ∷ split_from p [] s
  | false ↦ split_from p (cur ++ c ∷ []) s
]

-- `s.len()`: the bytes of the UTF-8 text.
unfoldable pub utf8_width : ℕ → ℕ
utf8_width c = if ltb c 0x80 then 1 else if ltb c 0x800 then 2 else if ltb c 0x10000 then 3 else 4

unfoldable pub byte_len : Text → ℕ
unfolding utf8_width
byte_len [] = 0
byte_len (c ∷ s) = utf8_width c + byte_len s

-- `s.split(p)`.
unfoldable pub split : (ℕ → Bool) → Text → List Text
unfolding split_from
split p s = split_from p [] s

unfoldable pub split_whitespace : Text → List Text
unfolding split is_whitespace
split_whitespace s = keep (λ w. not (is_empty w)) (split is_whitespace s)

-- `parts.join(sep)`.
unfoldable pub join : List Text → Text → Text
join [] sep = []
join (p ∷ []) sep = p
join (p ∷ q ∷ ps) sep = p ++ (sep ++ join (q ∷ ps) sep)
