-- ===== src/Attribution/Ingest.antt =====
-- The candidate that the ingest makes of an item, and its judgement:
-- crates/talaria-api/src/person_ingest/gating.rs.
use talaria_v.Base.{
  leb, Bool, not, ◌&&◌, ◌||◌, List, [], ◌∷◌, ◌++◌, none, some, pos, ◌==◌, any, if◌then◌else◌, keep,
  length, wrap32, String, ℤ,
}
use talaria_v.Text.{Text, codes, is, contains, contains_any, byte_len}
use talaria_v.Text.Unicode.{Unicode}
use talaria_v.Time.{TypedTime}
use talaria_v.Gates.Candidate.{Uuid, EventCandidate, pending}
use talaria_v.Gates.Codes.{GateDecision, accept, review, reject}
use talaria_v.Gates.{GateContext, apply_gates}
use talaria_v.Grounding.{GroundedItem}
use talaria_v.Identity.{candidate_fingerprint}
use talaria_v.Attribution.{AttributionMatch, attribution_gate_decision, classify_attribution}

unfoldable pub merge_gate_and_attribution : GateDecision → AttributionMatch → GateDecision
unfolding attribution_gate_decision
merge_gate_and_attribution decision m = elim decision [
  | accept ↦ attribution_gate_decision m
  | review ↦ elim (attribution_gate_decision m) [
    | accept ↦ review
    | review ↦ review
    | reject b ↦ reject b
  ]
  | reject a ↦ elim (attribution_gate_decision m) [
    | accept ↦ reject a
    | review ↦ reject a
    | reject b ↦ reject (a ++ b)
  ]
]

module _ (u : Unicode) where
  -- The verbs that support a role in an event of the type.
  unfoldable pub follow_cues : Text → List String
  unfolding is
  follow_cues event_type =
      if is event_type "battle"
      then "fought" ∷ "commanded" ∷ "defeated" ∷ "wounded" ∷ "captured" ∷ "besieged" ∷ "retreated"
        ∷ "surrendered" ∷ "led the" ∷ []
      else if is event_type "diplomatic"
      then "signed" ∷ "negotiated" ∷ "ratified" ∷ "concluded" ∷ []
      else if is event_type "residence"
      then "lived" ∷ "resided" ∷ "stayed" ∷ "inhabited" ∷ "exiled" ∷ []
      else "fought" ∷ "commanded" ∷ "lived" ∷ "signed" ∷ "married" ∷ "crowned" ∷ "visited"
        ∷ "travelled" ∷ "traveled" ∷ []

  unfoldable pub quote_supports_follow_role : Text → Text → Bool
  unfolding contains codes contains_any follow_cues
  quote_supports_follow_role event_type quote =
      not (contains quote (codes " | ") && leb 2 (length (keep (λ c. c == b'|') quote)))
      && contains_any (u.to_lowercase quote) (follow_cues event_type)

  unfoldable pub classify_item :
      Text → List Text → GroundedItem → Text → Bool → Bool → Bool → AttributionMatch
  unfolding quote_supports_follow_role contains classify_attribution
  classify_item subject aliases item page_title from_followed_page structured_source
        military_subject =
      let quote_l = u.to_lowercase item.quoted_text in
      classify_attribution u record {
        subject = subject;
        aliases = aliases;
        quote = item.quoted_text;
        page_title = page_title;
        event_type = item.event_type;
        from_followed_page = from_followed_page;
        structured_source = structured_source;
        role_supported_by_evidence =
            structured_source
            || from_followed_page && quote_supports_follow_role item.event_type item.quoted_text
            || not from_followed_page
              && (any (λ a. contains quote_l (u.to_lowercase a)) aliases
                  || contains quote_l (u.to_lowercase subject));
        military_subject = military_subject;
      }

  unfoldable pub judge_item : EventCandidate → GateContext → AttributionMatch → GateDecision
  unfolding apply_gates merge_gate_and_attribution
  judge_item candidate ctx m = merge_gate_and_attribution (apply_gates u candidate ctx) m

-- `Uuid::nil()`
abbrev nil_uuid : Uuid
nil_uuid = 0

-- `EXTRACTOR_DETERMINISTIC_V1`
abbrev extractor_deterministic_v1 : Text
extractor_deterministic_v1 = codes "deterministic:clause_v1"

-- `quoted_text.len() as i32`
abbrev quote_end : GroundedItem → ℤ
quote_end item = wrap32 (byte_len item.quoted_text) 0

unfoldable pub event_candidate_from_item :
    Uuid → Text → GroundedItem → TypedTime → Text → EventCandidate
unfolding codes byte_len wrap32
event_candidate_from_item entity_id subject item time fingerprint = record {
  id = nil_uuid;
  snapshot_id = nil_uuid;
  fragment_id = nil_uuid;
  clause_index = pos 0;
  subject_surface = subject;
  subject_entity_id = some entity_id;
  event_type = item.event_type;
  predicate = item.role;
  time = time;
  place_mentions = [];
  object_mentions = [];
  participant_mentions = [];
  place_entity_id = none;
  place_label = item.place_surface;
  evidence_ptrs =
      record {
        fragment_id = nil_uuid;
        clause_index = pos 0;
        start_offset = pos 0;
        end_offset = quote_end item;
        quoted_text = item.quoted_text;
      }
      ∷ [];
  extractor_version = extractor_deterministic_v1;
  fingerprint = fingerprint;
  status = pending;
  rejection_codes = [];
}

module _ (u : Unicode) (hex_digest : Text → Text) (uuid_text : Uuid → Text) where
  unfoldable pub fingerprint_for : Text → GroundedItem → TypedTime → Uuid → Text
  unfolding candidate_fingerprint codes byte_len wrap32
  fingerprint_for subject item time raw_document_id =
      candidate_fingerprint u hex_digest uuid_text extractor_deterministic_v1 subject
        item.event_type item.role time item.place_surface (uuid_text raw_document_id) (pos 0)
        (pos 0) (quote_end item) []
