-- ===== src/Text/Bytes.antt =====
-- Offsets into a text in bytes of its UTF-8 form.
use talaria_v.Base.{
  ℕ, zero, suc, ◌-◌, ltb, leb, Bool, true, false, [], ◌∷◌, Option, none, some, if◌then◌else◌,
}
use talaria_v.Text.{Text, utf8_width}

-- `s.is_char_boundary(i)`
unfoldable pub is_char_boundary : Text → ℕ → Bool
unfolding utf8_width
is_char_boundary s zero = true
is_char_boundary [] (suc i) = false
is_char_boundary (c ∷ s) (suc i) =
    let rest = is_char_boundary s (suc i - utf8_width c) in
    if ltb (suc i) (utf8_width c) then false else rest

-- The text before and behind a boundary.
unfoldable pub take_bytes : ℕ → Text → Text
unfolding utf8_width
take_bytes n [] = []
take_bytes n (c ∷ s) =
    let rest = take_bytes (n - utf8_width c) s in if leb (utf8_width c) n then c ∷ rest else []

unfoldable pub drop_bytes : ℕ → Text → Text
unfolding utf8_width
drop_bytes n [] = []
drop_bytes n (c ∷ s) =
    let rest = drop_bytes (n - utf8_width c) s in if leb (utf8_width c) n then rest else c ∷ s

-- The character that begins at the offset: a byte of ASCII is a character of its own.
unfoldable pub char_at : Text → ℕ → Option ℕ
unfolding utf8_width
char_at [] i = none
char_at (c ∷ s) zero = some c
char_at (c ∷ s) (suc i) =
    let rest = char_at s (suc i - utf8_width c) in if ltb (suc i) (utf8_width c) then none else rest
