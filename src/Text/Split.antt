-- ===== src/Text/Split.antt =====
-- What the pieces of a split text hold.
use talaria_v.Base.{ℕ, ◌≡◌, refl, Bool, true, false, List, [], ◌∷◌, ◌==◌, any, arith, not}
use talaria_v.Text.{Text, split, split_from, byte_len}

abbrev four_bytes : Text → Bool
four_bytes part = byte_len part == 4

-- A separator adds an empty piece.
no_word_step :
    (sep : Bool) (pieces others : List Text)
    → sep ≡ true
    → any four_bytes pieces ≡ false
    → any four_bytes (elim sep [ true ↦ [] ∷ pieces | false ↦ others ]) ≡ false
unfolding byte_len
no_word_step true pieces others h k = k
no_word_step false pieces others h k = ground arith

separators_only :
    (p : ℕ → Bool) (s : Text)
    → any (λ c. not (p c)) s ≡ false
    → any four_bytes (split_from p [] s) ≡ false
unfolding split_from byte_len
separators_only p [] h = refl
separators_only p (c ∷ s) h =
    no_word_step (p c) (split_from p [] s) (split_from p (c ∷ []) s) (ground (arith, h))
      (separators_only p s (ground (arith, h)))

-- Where every character is a separator, no piece has four bytes.
pub split-no_word :
    (p : ℕ → Bool) (s : Text)
    → any (λ c. not (p c)) s ≡ false
    → any (λ part. byte_len part == 4) (split p s) ≡ false
unfolding split
split-no_word p s h = separators_only p s h
