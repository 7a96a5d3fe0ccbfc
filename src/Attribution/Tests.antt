-- ===== src/Attribution/Tests.antt =====
-- Attributions, and the theorems at a concrete input.
use talaria_v.Base.{◌≡◌, refl, ◌≢◌, ◌↔◌, ◌⊎◌, true, false, [], ◌∷◌, none, some, pos}
use talaria_v.Text.{codes, is, to_ascii_lowercase}
use talaria_v.Text.Sample.{ascii_tables}
use talaria_v.Time.{exact}
use talaria_v.Gates.Candidate.{EventCandidate}
use talaria_v.Gates.Codes.{accept, reject, subject_not_attributed}
use talaria_v.Gates.{GateContext, all_gates, is_unknown}
use talaria_v.Gates.Reasons.{reports, Reason}
use talaria_v.Gates.Acceptance.{NoReason, IsUnknown}
use talaria_v.Grounding.{GroundedItem, fact}
use talaria_v.Attribution.{
  AttributionInput, coreference_match, unattributed, alias_match, auto_accept_attribution,
  classify_attribution,
}
use talaria_v.Attribution.Ingest.{classify_item, event_candidate_from_item, judge_item}
use talaria_v.Attribution.Judging.{
  Attributed, judge_item-accept_iff, judge_item-reports_iff, classify_attribution-auto_accept_iff,
}

abbrev battle : GroundedItem
battle = record {
  lane = fact;
  event_type = codes "battle";
  role = codes "commander";
  year = some (pos 1805);
  place_surface = some (codes "Austerlitz");
  summary = codes "battle";
  quoted_text = codes "Bonaparte commanded at Austerlitz";
  confidence = 0;
}

abbrev candidate : EventCandidate
candidate =
    event_candidate_from_item 7 (codes "Napoleon") battle (exact (pos 1805) none none none)
      (codes "f")

abbrev empty_context : GateContext
empty_context = record {
  subject_birth_year = none;
  subject_death_year = none;
  has_active_birth = false;
  has_active_death = false;
  fingerprint_exists = false;
  cross_clause_join_detected = false;
  place_entity_kind = none;
  subject_confirmed_alive = false;
}

by_alias :
    classify_item ascii_tables
      (codes "Napoleon")
      (codes "Bonaparte" ∷ [])
      battle
      (codes "Third Coalition")
      true
      false
      false
    ≡ alias_match
unfolding classify_item codes to_ascii_lowercase
by_alias = refl

judged : judge_item ascii_tables candidate empty_context alias_match ≡ accept
unfolding judge_item event_candidate_from_item codes all_gates is is_unknown
judged = refl

unattributed_judged :
    judge_item ascii_tables candidate empty_context unattributed
    ≡ reject (subject_not_attributed ∷ [])
unfolding judge_item event_candidate_from_item codes all_gates is is_unknown
unattributed_judged = refl

abbrev input : AttributionInput
input = record {
  subject = codes "Napoleon";
  aliases = codes "Bonaparte" ∷ [];
  quote = codes "He then returned to Paris.";
  page_title = codes "Sixth Coalition";
  event_type = codes "travel";
  from_followed_page = true;
  structured_source = false;
  role_supported_by_evidence = true;
  military_subject = true;
}

coreference : classify_attribution ascii_tables input ≡ coreference_match
unfolding classify_attribution codes to_ascii_lowercase
coreference = refl

judge_item-accept_iff_example :
    (judge_item ascii_tables candidate empty_context alias_match ≡ accept) ↔ (
      (NoReason ascii_tables candidate empty_context
        × (¬ IsUnknown candidate.time)
        × (candidate.subject_entity_id ≢ none))
      × (auto_accept_attribution alias_match ≡ true))
judge_item-accept_iff_example =
    judge_item-accept_iff ascii_tables candidate empty_context alias_match

judge_item-reports_iff_example :
    (reports (judge_item ascii_tables candidate empty_context unattributed) subject_not_attributed
      ≡ true)
    ↔ (Reason ascii_tables candidate empty_context subject_not_attributed
        ⊎ ((unattributed ≡ unattributed) × (subject_not_attributed ≡ subject_not_attributed)))
judge_item-reports_iff_example =
    judge_item-reports_iff ascii_tables candidate empty_context unattributed subject_not_attributed

classify_attribution-auto_accept_iff_example :
    (auto_accept_attribution (classify_attribution ascii_tables input) ≡ true)
    ↔ Attributed ascii_tables input
classify_attribution-auto_accept_iff_example =
    classify_attribution-auto_accept_iff ascii_tables input
