-- ===== src/Wiki/Sections/Ends.antt =====
-- The ends of lines: what `lines` takes off is what `newline_len` counts.
use talaria_v.Base.{
  ℕ, ◌≡◌, refl, ◌⊎◌, inl, inr, ◌&&◌, List, [], ◌∷◌, ◌++◌, ◌==◌, if◌then◌else◌, is_empty, arith,
}
use talaria_v.Text.{Text, codes, starts_with, byte_len, utf8_width}
use talaria_v.Wiki.{onto_first, split_inclusive, strip_line_end}
use talaria_v.Wiki.Sections.{newline_len}
use talaria_v.Wiki.Sections.Offsets.{get_from-append}

abbrev pub line_ending : Text → Text
line_ending [] = []
line_ending (c ∷ []) = if c == b'\n' then c ∷ [] else []
line_ending (c ∷ d ∷ s) =
    let rest = line_ending (d ∷ s) in
    if is_empty s && c == b'\r' && d == b'\n' then c ∷ d ∷ [] else rest

pub strip_line_end-ending : (l : Text) → strip_line_end l ++ line_ending l ≡ l
unfolding strip_line_end
strip_line_end-ending [] = refl
strip_line_end-ending (c ∷ []) = ground arith
strip_line_end-ending (c ∷ d ∷ s) = ground (arith, strip_line_end-ending (d ∷ s))

abbrev pub IsEnding : Text → Type 0
IsEnding e = (e ≡ []) ⊎ ((e ≡ b'\n' ∷ []) ⊎ (e ≡ b'\r' ∷ b'\n' ∷ []))

pub line_ending-IsEnding : (l : Text) → IsEnding (line_ending l)
line_ending-IsEnding [] = inl refl
line_ending-IsEnding (c ∷ []) = ground arith
line_ending-IsEnding (c ∷ d ∷ s) = ground (arith, line_ending-IsEnding (d ∷ s))

-- Only the last line can lack an end.
abbrev pub Ended : List Text → Type 0
Ended [] = Unit
Ended (l ∷ ls) = (line_ending l ≡ [] → ls ≡ []) × Ended ls

abbrev pub flatten : List Text → Text
flatten [] = []
flatten (l ∷ ls) = l ++ flatten ls

line_ending-cons : (c : ℕ) (l : Text) → line_ending (c ∷ l) ≡ [] → line_ending l ≡ []
line_ending-cons c [] h = refl
line_ending-cons c (d ∷ l) h = ground (arith, h)

onto_first-Ended : (c : ℕ) (ls : List Text) → Ended ls → Ended (onto_first c ls)
onto_first-Ended c [] h = (λ e. refl, tt)
onto_first-Ended c (l ∷ ls) h = (λ e. h.0 (line_ending-cons c l e), h.1)

onto_first-flatten : (c : ℕ) (ls : List Text) → flatten (onto_first c ls) ≡ c ∷ flatten ls
onto_first-flatten c [] = refl
onto_first-flatten c (l ∷ ls) = refl

pub split_inclusive-Ended : (s : Text) → Ended (split_inclusive s)
unfolding split_inclusive
split_inclusive-Ended [] = tt
split_inclusive-Ended (c ∷ s) = ground (
  arith,
  split_inclusive-Ended s,
  onto_first-Ended c (split_inclusive s) (split_inclusive-Ended s),
)

pub split_inclusive-flatten : (s : Text) → flatten (split_inclusive s) ≡ s
unfolding split_inclusive
split_inclusive-flatten [] = refl
split_inclusive-flatten (c ∷ s) =
    ground (arith, split_inclusive-flatten s, onto_first-flatten c (split_inclusive s))

pub newline_len-ending :
    (p e rest : Text)
    → IsEnding e
    → (e ≡ [] → rest ≡ [])
    → newline_len (p ++ (e ++ rest)) (byte_len p) ≡ byte_len e
unfolding newline_len byte_len codes starts_with utf8_width
newline_len-ending p e rest (inl h) k = rw (get_from-append p (e ++ rest), h, k h) refl
newline_len-ending p e rest (inr (inl h)) k = rw (get_from-append p (e ++ rest), h) refl
newline_len-ending p e rest (inr (inr h)) k = rw (get_from-append p (e ++ rest), h) refl
