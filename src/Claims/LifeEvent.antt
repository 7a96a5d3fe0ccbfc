-- ===== src/Claims/LifeEvent.antt =====
-- When a claim counts as an event of a life.
use talaria_v.Base.{
  ◌≡◌, refl, ◌∙◌, [], ◌∷◌, true, false, not, any, arith, Bool-cases, inl, inr, Bool, ℕ,
}
use talaria_v.Text.{Text, codes, is_ascii_digit, to_ascii_lowercase}
use talaria_v.Text.Split.{split-no_word}
use talaria_v.Claims.{
  class_of, classify_claim_text, looks_like_life_event, has_life_verb, has_four_digits, has_year,
}

life_event-looks :
    (lower : Text) → (class_of lower).kind ≡ codes "life_event" → looks_like_life_event lower ≡ true
unfolding class_of codes
life_event-looks lower h = ground arith

any-not-not : (p : ℕ → Bool) (s : Text) → any (λ c. not (not (p c))) s ≡ any p s
any-not-not p [] = refl
any-not-not p (c ∷ s) = ground (arith, any-not-not p s)

no_digits : (lower : Text) → any is_ascii_digit lower ≡ false → has_four_digits lower ≡ false
unfolding has_four_digits
no_digits lower h =
    split-no_word (λ c. not (is_ascii_digit c)) lower (any-not-not is_ascii_digit lower ∙ h)

looks-digit :
    (lower : Text)
    → looks_like_life_event lower ≡ true
    → (has_life_verb lower ≡ true) × (any is_ascii_digit lower ≡ true)
unfolding looks_like_life_event has_year
looks-digit lower h = elim (Bool-cases (any is_ascii_digit lower)) [
  | inl digit ↦ (ground arith, digit)
  | inr bare ↦ ground (arith, no_digits lower bare)
]

-- A claim is classified as an event of a life only where its text has a verb of the list and a digit.
pub classify_claim_text-life_event :
    (text : Text)
    → (classify_claim_text text).kind ≡ codes "life_event"
    → (has_life_verb (to_ascii_lowercase text) ≡ true)
      × (any is_ascii_digit (to_ascii_lowercase text) ≡ true)
unfolding classify_claim_text
classify_claim_text-life_event text h =
    let lower = to_ascii_lowercase text in looks-digit lower (life_event-looks lower h)
