-- ===== src/ContextYear/Window.antt =====
-- The text near a clause: `local_context_window` of crates/talaria-quality/src/context_year.rs.
-- Offsets into a text are in bytes, as in the source; the loops to a character boundary recurse on the
-- number of bytes that are left in their direction.
use talaria_v.Base.{
  ℕ, zero, suc, ◌+◌, ◌-◌, leb, ◌||◌, [], ◌∷◌, Option, none, some, if◌then◌else◌, is_empty,
}
use talaria_v.Text.Bytes.{is_char_boundary, take_bytes, drop_bytes}
use talaria_v.Text.{Text, trim, byte_len, utf8_width, starts_with}

floor_loop : Text → ℕ → ℕ
unfolding is_char_boundary
floor_loop s zero = zero
floor_loop s (suc i) =
    let lower = floor_loop s i in if is_char_boundary s (suc i) then suc i else lower

unfoldable pub floor_char_boundary : Text → ℕ → ℕ
unfolding byte_len floor_loop
floor_char_boundary s i = if leb (byte_len s) i then byte_len s else floor_loop s i

-- `left` is `s.len() - i`.
ceil_loop : Text → ℕ → ℕ → ℕ
unfolding is_char_boundary
ceil_loop s zero i = i
ceil_loop s (suc left) i =
    let higher = ceil_loop s left (i + 1) in if is_char_boundary s i then i else higher

unfoldable pub ceil_char_boundary : Text → ℕ → ℕ
unfolding byte_len ceil_loop
ceil_char_boundary s i = if leb (byte_len s) i then byte_len s else ceil_loop s (byte_len s - i) i

-- `haystack.find(needle)`: the offset of the first occurrence.
unfoldable pub find : Text → Text → Option ℕ
unfolding starts_with utf8_width
find [] needle = if starts_with [] needle then some 0 else none
find (c ∷ s) needle =
    let rest = find s needle in
    if starts_with (c ∷ s) needle
    then some 0
    else elim rest [ none ↦ none | some p ↦ some (utf8_width c + p) ]

abbrev min_ℕ : ℕ → ℕ → ℕ
min_ℕ a b = if leb a b then a else b

-- The text around the offset of the clause. `saturating_add` stops at the largest `usize`, which no
-- text reaches; the minimum with the length of the text makes up for it.
abbrev window_at : Text → Text → ℕ → ℕ → Text
window_at full clause radius p =
    let start = floor_char_boundary full (p - radius) in
    let end = ceil_char_boundary full (min_ℕ (p + (byte_len clause + radius)) (byte_len full)) in
    drop_bytes start (take_bytes end full)

unfoldable pub local_context_window : Text → Text → ℕ → Text
unfolding trim find floor_char_boundary ceil_char_boundary take_bytes drop_bytes byte_len
    is_char_boundary
local_context_window full clause radius =
    let trimmed = trim clause in
    let prefix = min_ℕ radius (byte_len full) in
    if is_empty trimmed || is_empty full then full else elim (find full trimmed) [
      | none ↦ if is_char_boundary full prefix then take_bytes prefix full else full
      | some p ↦ window_at full trimmed radius p
    ]
