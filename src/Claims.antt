-- ===== src/Claims.antt =====
-- The kinds of claims: crates/talaria-judge/src/claims.rs. A confidence, of type `f64`, is its IEEE 754
-- bit pattern.
pub mod LifeEvent
mod Tests
use talaria_v.Base.{ℕ, Bool, not, ◌&&◌, ◌||◌, List, [], ◌∷◌, ◌==◌, any, if◌then◌else◌}
use talaria_v.Text.{
  Text, codes, contains, contains_any, is_ascii_digit, to_ascii_lowercase, split, byte_len,
}
use talaria_v.Grounding.{F64}

pub record ClaimClass : Type 0 where
  pub kind : Text
  pub epistemic_status : Text
  pub relation_to_subject : Text
  pub confidence : F64

abbrev verdict : Text → Text → Text → F64 → ClaimClass
verdict kind status relation confidence = record {
  kind = kind;
  epistemic_status = status;
  relation_to_subject = relation;
  confidence = confidence;
}

-- Some word of the text has four bytes, all digits.
unfoldable pub has_four_digits : Text → Bool
unfolding split is_ascii_digit byte_len
has_four_digits lower = any (λ part. byte_len part == 4) (split (λ c. not (is_ascii_digit c)) lower)

unfoldable pub has_life_verb : Text → Bool
unfolding contains_any
has_life_verb lower = contains_any lower (
    "was born" ∷ "born in" ∷ "died" ∷ "married" ∷ "crowned" ∷ "elected" ∷ "appointed" ∷ "abdicated"
    ∷ "graduated" ∷ "founded" ∷ "published" ∷ "moved to" ∷ "fled" ∷ "executed" ∷ "assassinated"
    ∷ [])

unfoldable pub has_year : Text → Bool
unfolding is_ascii_digit contains codes
has_year lower =
    any is_ascii_digit lower
    && any is_ascii_digit lower
    && (contains lower (codes "1") || contains lower (codes "2"))

unfoldable pub looks_like_life_event : Text → Bool
unfolding has_life_verb has_year has_four_digits
looks_like_life_event lower = has_life_verb lower && (has_year lower || has_four_digits lower)

-- The class of a text in lower case: the first list of cues that has one in it.
unfoldable pub class_of : Text → ClaimClass
unfolding contains_any codes looks_like_life_event
class_of lower =
    if contains_any lower
      ("controversial" ∷ "disputed" ∷ "scandal" ∷ "accused of" ∷ "allegation" ∷ "denied that" ∷ [])
    then verdict (codes "controversy") (codes "disputed") (codes "direct") 0x3fe199999999999a
    else if contains_any lower (
        "legend has it" ∷ "according to legend" ∷ "anecdote" ∷ "once told" ∷ "is said to have"
        ∷ "it is said that" ∷ "it is said " ∷ "reportedly" ∷ "apocryphal" ∷ "the story goes"
        ∷ "popular story" ∷ "reputed to have" ∷ "tradition holds" ∷ "folklore"
        ∷ "according to a popular" ∷ [])
    then verdict (codes "anecdote") (codes "attested") (codes "direct") 0x3fe0000000000000
    else if contains_any lower (
        "historians debate" ∷ "critics argue" ∷ "supporters claim" ∷ "on the other hand"
        ∷ "however, some" ∷ [])
    then verdict (codes "debate_stance") (codes "contested") (codes "historiography")
        0x3fe0000000000000
    else if contains_any lower (
        "theory" ∷ "hypothes" ∷ "believed that" ∷ "argued that" ∷ "proposed that" ∷ "suggested that"
        ∷ [])
    then verdict (codes "theory") (codes "hypothesized") (codes "indirect") 0x3fe199999999999a
    else if contains_any lower
        (" wrote " ∷ " said " ∷ " according to " ∷ " quoted " ∷ " remarked " ∷ [])
    then verdict (codes "attribution") (codes "attested") (codes "direct") 0x3fe3333333333333
    else if looks_like_life_event lower
    then verdict (codes "life_event") (codes "attested") (codes "direct") 0x3fe4cccccccccccd
    else if contains_any lower
        ("during" ∷ "while" ∷ "at the time" ∷ "in this period" ∷ "meanwhile" ∷ [])
    then verdict (codes "context") (codes "attested") (codes "indirect") 0x3fdccccccccccccd
    else verdict (codes "fact") (codes "attested") (codes "direct") 0x3fd999999999999a

unfoldable pub classify_claim_text : Text → ClaimClass
unfolding to_ascii_lowercase class_of
classify_claim_text text = class_of (to_ascii_lowercase text)
