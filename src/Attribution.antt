-- ===== src/Attribution.antt =====
-- Whether an event belongs to the subject: crates/talaria-quality/src/attribution.rs.
pub mod Ingest
pub mod Judging
mod Tests
use talaria_v.Base.{
  ℕ, leb, Bool, true, false, not, ◌&&◌, ◌||◌, List, [], ◌∷◌, ◌++◌, none, some, pos, ◌==◌, any,
  if◌then◌else◌, is_empty, keep, length, map, wrap32, String, ℤ,
}
use talaria_v.Text.{
  Text, codes, text_eq, is, is_one_of, contains, contains_any, starts_with, trim_start_matches,
  is_whitespace, byte_len,
}
use talaria_v.Text.Unicode.{Unicode}
use talaria_v.Time.{TypedTime}
use talaria_v.Gates.Candidate.{Uuid, EventCandidate, EvidencePtr, pending}
use talaria_v.Gates.Codes.{GateDecision, accept, review, reject, subject_not_attributed}
use talaria_v.Gates.{GateContext, apply_gates}
use talaria_v.Grounding.{GroundedItem}
use talaria_v.Identity.{candidate_fingerprint}

pub data AttributionMatch : Type 0 where
  direct_name_match alias_match title_subject_match structured_participant_match : AttributionMatch
  followed_military_action coreference_match unattributed : AttributionMatch

pub record AttributionInput : Type 0 where
  pub subject : Text
  pub aliases : List Text
  pub quote : Text
  pub page_title : Text
  pub event_type : Text
  pub from_followed_page : Bool
  pub structured_source : Bool
  pub role_supported_by_evidence : Bool
  pub military_subject : Bool

unfoldable pub is_military_action_type : Text → Bool
unfolding is_one_of
is_military_action_type event_type =
    is_one_of event_type ("battle" ∷ "siege" ∷ "military_campaign" ∷ "surrender" ∷ "retreat" ∷ [])

abbrev among : ℕ → String → Bool
among c letters = any (λ d. c == d) (codes letters)

-- The letters that `fold_case` maps to one without its mark.
unfoldable pub fold_letter : ℕ → ℕ
unfolding codes
fold_letter c =
    if among c "àáâäãåā"
    then b'a'
    else if among c "èéêëē"
    then b'e'
    else if among c "ìíîïī"
    then b'i'
    else if among c "òóôöõøō"
    then b'o'
    else if among c "ùúûüū"
    then b'u'
    else if among c "ýÿ"
    then b'y'
    else if among c "ñ"
    then b'n'
    else if among c "ç"
    then b'c'
    else if among c "ł"
    then b'l'
    else if among c "ś"
    then b's'
    else if among c "źż"
    then b'z'
    else c

unfoldable pub auto_accept_attribution : AttributionMatch → Bool
auto_accept_attribution direct_name_match = true
auto_accept_attribution alias_match = true
auto_accept_attribution title_subject_match = true
auto_accept_attribution structured_participant_match = true
auto_accept_attribution followed_military_action = true
auto_accept_attribution _ = false

unfoldable pub attribution_gate_decision : AttributionMatch → GateDecision
attribution_gate_decision coreference_match = review
attribution_gate_decision unattributed = reject (subject_not_attributed ∷ [])
attribution_gate_decision _ = accept

module _ (u : Unicode) where
  unfoldable pub fold_case : Text → Text
  unfolding fold_letter
  fold_case s = map fold_letter (u.to_lowercase s)

  unfoldable pub contains_folded : Text → Text → Bool
  unfolding fold_case contains
  contains_folded haystack needle =
      not (is_empty needle) && contains (fold_case haystack) (fold_case needle)

  unfoldable pub titles_equal : Text → Text → Bool
  unfolding fold_case text_eq
  titles_equal a b = text_eq (fold_case a) (fold_case b)

  unfoldable pub starts_with_coreference : Text → Bool
  unfolding fold_case starts_with trim_start_matches is_whitespace codes
  starts_with_coreference quote =
      let folded = fold_case (trim_start_matches is_whitespace quote) in
      any (λ prefix. starts_with folded prefix)
        (codes "he " ∷ codes "she " ∷ codes "the emperor " ∷ codes "l'empereur " ∷ [])

  unfoldable pub classify_attribution : AttributionInput → AttributionMatch
  unfolding is_military_action_type titles_equal contains_folded starts_with_coreference
  classify_attribution input =
      let name_in_quote = contains_folded input.quote input.subject in
      let alias_in_quote = any (λ alias. contains_folded input.quote alias) input.aliases in
      if input.structured_source
      then structured_participant_match
      else if input.military_subject
          && input.from_followed_page
          && is_military_action_type input.event_type
      then followed_military_action
      else if not input.from_followed_page
      then title_subject_match
      else if titles_equal input.page_title input.subject
      then title_subject_match
      else if name_in_quote || alias_in_quote
      then (if not input.role_supported_by_evidence
          then unattributed
          else if name_in_quote
          then direct_name_match
          else alias_match)
      else if starts_with_coreference input.quote
      then coreference_match
      else unattributed
