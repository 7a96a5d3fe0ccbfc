-- ===== src/Wiki/Infobox/Nested.antt =====
-- Texts whose brackets are closed, and texts with no white space at their ends.
use talaria_v.Base.{
  ℕ, ◌+◌, ◌-◌, ◌≡◌, ◌≢◌, refl, ◌∙◌, ap, inl, inr, Bool, true, false, not, ◌&&◌, List, [], ◌∷◌, ◌++◌,
  some, ◌==◌, is_empty, All, arith, Bool-cases,
}
use talaria_v.Text.{
  Text, codes, trim, trim_start_matches, trim_end_matches, is_whitespace, contains, starts_with,
}
use talaria_v.Text.Unicode.{Unicode}
use talaria_v.Wiki.Links.{split_once}
use talaria_v.Wiki.Infobox.{InfoboxField, at_char}

-- Read at the depths `b` and `l`, the text has no bar outside all brackets, and closes them.
unfoldable pub is_nested : ℕ → ℕ → Text → Bool
is_nested b l [] = b == 0 && l == 0
is_nested b l (c ∷ s) = elim (c == b'{') [
  | true ↦ is_nested (b + 1) l s
  | false ↦ elim (c == b'}') [
    | true ↦ is_nested (b - 1) l s
    | false ↦ elim (c == b'[') [
      | true ↦ is_nested b (l + 1) s
      | false ↦ elim (c == b']') [
        | true ↦ is_nested b (l - 1) s
        | false ↦ not (c == b'|' && b == 0 && l == 0) && is_nested b l s
      ]
    ]
  ]
]

-- No white space at either end.
abbrev pub StartsTight : Text → Type 0
StartsTight [] = Unit
StartsTight (c ∷ s) = is_whitespace c ≡ false

abbrev pub IsTight : Text → Type 0
IsTight s = StartsTight s × (trim_end_matches is_whitespace s ≡ s)

trim_start-tight : (s : Text) → StartsTight s → trim_start_matches is_whitespace s ≡ s
unfolding trim_start_matches
trim_start-tight [] h = refl
trim_start-tight (c ∷ s) h = rw h refl

pub trim-tight : (s : Text) → IsTight s → trim s ≡ s
unfolding trim
trim-tight s h = ap (trim_end_matches is_whitespace) (trim_start-tight s h.0) ∙ h.1

pub StartsTight-append : (s t : Text) → is_empty s ≡ false → StartsTight s → StartsTight (s ++ t)
StartsTight-append [] t h k = absurd (ground (arith, h))
StartsTight-append (c ∷ s) t h k = k

pub split_once-found :
    (key v : Text) → All (λ c. c ≢ b'=') key → split_once b'=' (key ++ b'=' ∷ v) ≡ (key, some v)
unfolding split_once
split_once-found [] v h = refl
split_once-found (c ∷ key) v h = ground (arith, h.0, split_once-found key v h.1)

pub contains-found : (key v : Text) → contains (key ++ b'=' ∷ v) (codes "=") ≡ true
unfolding contains starts_with codes
contains-found [] v = refl
contains-found (c ∷ key) v = ground (arith, contains-found key v)

append-present : (s t : Text) → is_empty t ≡ false → is_empty (s ++ t) ≡ false
append-present [] t h = h
append-present (c ∷ s) t h = refl

pub trim_end-append :
    (s t : Text)
    → is_empty (trim_end_matches is_whitespace t) ≡ false
    → trim_end_matches is_whitespace (s ++ t) ≡ s ++ trim_end_matches is_whitespace t
unfolding trim_end_matches
trim_end-append [] t h = refl
trim_end-append (c ∷ s) t h =
    ground (arith, h, trim_end-append s t h, append-present s (trim_end_matches is_whitespace t) h)

pub zero_of : (b l : ℕ) → (b == 0 && l == 0) ≡ true → b ≡ 0
zero_of b l h = ground (arith, h)

pub zero_link : (b l : ℕ) → (b == 0 && l == 0) ≡ true → l ≡ 0
zero_link b l h = ground (arith, h)

-- One character, at the depths `b` and `l`, and the depths behind it.
pub data Step (u : Unicode) (fs : List InfoboxField) (cur s : Text) (c b l : ℕ) : Type 0 where
  step :
      (b2 l2 : ℕ)
      → at_char u (record { fields = fs; current = cur; depth_brace = b; depth_link = l }) c
        ≡ record { fields = fs; current = cur ++ c ∷ []; depth_brace = b2; depth_link = l2 }
      → is_nested b2 l2 s ≡ true
      → Step u fs cur s c b l

pub nested_step :
    (u : Unicode) (fs : List InfoboxField) (cur s : Text) (c b l : ℕ)
    → is_nested b l (c ∷ s) ≡ true
    → Step u fs cur s c b l
unfolding at_char is_nested
nested_step u fs cur s c b l h = elim (Bool-cases (c == b'{')) [
  | inl e ↦ step (b + 1) l (rw (at_char, e) refl) (ground (arith, h, e))
  | inr e ↦ elim (Bool-cases (c == b'}')) [
    | inl f ↦ step (b - 1) l (rw (at_char, e, f) refl) (ground (arith, h, e, f))
    | inr f ↦ elim (Bool-cases (c == b'[')) [
      | inl g ↦ step b (l + 1) (rw (at_char, e, f, g) refl) (ground (arith, h, e, f, g))
      | inr g ↦ elim (Bool-cases (c == b']')) [
        | inl k ↦ step b (l - 1) (rw (at_char, e, f, g, k) refl) (ground (arith, h, e, f, g, k))
        | inr k ↦ step b l (ground (arith, h, e, f, g, k)) (ground (arith, h, e, f, g, k))
      ]
    ]
  ]
]
