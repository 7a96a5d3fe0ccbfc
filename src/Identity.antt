-- ===== src/Identity.antt =====
-- The texts by which candidates and events are identified:
-- crates/talaria-quality/src/fingerprint.rs and crates/talaria-quality/src/occurrence.rs. SHA-256 and
-- the hexadecimal encoding, of the crates sha2 and hex, are the parameter `hex_digest` over the text
-- that is fed to the hasher.
pub mod Occurrence
mod Tests
use talaria_v.Base.{
  ℕ, Bool, true, false, ◌||◌, List, [], ◌∷◌, ◌++◌, Option, none, some, ℤ, pos, map, ltb, ◌==◌, ◌&&◌,
  unwrap_or, first,
}
use talaria_v.Base.Sort.{sort_by}
use talaria_v.Text.{Text, codes, trim, split_whitespace, join}
use talaria_v.Text.Decimal.{show_nat, show_int}
use talaria_v.Text.Unicode.{Unicode}
use talaria_v.Time.{TypedTime, canonical_key}
use talaria_v.Gates.Candidate.{
  Uuid, ParticipantRole, spouse, participant, opponent, ally, other, Mention, EvidencePtr,
  EventCandidate,
}

-- Rust compares strings by their UTF-8 bytes, which is the order of the scalar values.
unfoldable pub text_le : Text → Text → Bool
text_le [] t = true
text_le (a ∷ s) [] = false
text_le (a ∷ s) (b ∷ t) = ltb a b || a == b && text_le s t

-- `ParticipantRole::as_str`
unfoldable pub role_as_str : ParticipantRole → Text
unfolding codes
role_as_str spouse = codes "spouse"
role_as_str participant = codes "participant"
role_as_str opponent = codes "opponent"
role_as_str ally = codes "ally"
role_as_str other = codes "other"

-- The parts with `|` between them, as `sha_hex` feeds them to the hasher.
unfoldable pub sha_input : List Text → Text
unfolding join
sha_input parts = join parts (b'|' ∷ [])

-- The parts with `|` behind each, as `occurrence_key` feeds them to the hasher.
unfoldable pub occurrence_input : List Text → Text
occurrence_input [] = []
occurrence_input (p ∷ ps) = p ++ b'|' ∷ occurrence_input ps

abbrev start_of : Option EvidencePtr → ℤ
start_of none = pos 0
start_of (some e) = e.start_offset

abbrev end_of : Option EvidencePtr → ℤ
end_of none = pos 0
end_of (some e) = e.end_offset

module _ (u : Unicode) where
  unfoldable pub normalize_surface : Text → Text
  unfolding trim split_whitespace join
  normalize_surface s = u.to_lowercase (join (split_whitespace (trim s)) (b' ' ∷ []))

  -- The parts that `occurrence_key` hashes, in order.
  unfoldable pub occurrence_parts :
      Text
      → Text
      → Text
      → TypedTime
      → Option Text
      → Option Text
      → Option Text
      → Option Text
      → List Text
  unfolding normalize_surface
  occurrence_parts subject event_type action_role time place primary_object primary_document
        marker =
      normalize_surface subject
      ∷ event_type
      ∷ action_role
      ∷ canonical_key time
      ∷ normalize_surface (unwrap_or place [])
      ∷ normalize_surface (unwrap_or primary_object [])
      ∷ normalize_surface (unwrap_or primary_document [])
      ∷ unwrap_or marker []
      ∷ []

module _ (u : Unicode) (hex_digest : Text → Text) where
  unfoldable pub sha_hex : List Text → Text
  unfolding sha_input
  sha_hex parts = hex_digest (sha_input parts)

  unfoldable pub occurrence_key :
      Text → Text → Text → TypedTime → Option Text → Option Text → Option Text → Option Text → Text
  unfolding occurrence_input occurrence_parts
  occurrence_key subject event_type action_role time place primary_object primary_document marker =
      hex_digest (
        occurrence_input (
          occurrence_parts u subject event_type action_role time place primary_object
            primary_document marker))

  unfoldable pub occurrence_key_for_event :
      Text → Text → Text → TypedTime → Option Text → Option Text → Text
  unfolding occurrence_key
  occurrence_key_for_event subject event_type action_role time place primary_object =
      occurrence_key subject event_type action_role time place primary_object none none

  -- `occurrence_stem_for_event` of crates/talaria-quality/src/assertion.rs
  unfoldable pub occurrence_stem_for_event : Text → Text → Text → TypedTime → Option Text → Text
  unfolding occurrence_key_for_event
  occurrence_stem_for_event subject event_type action_role time primary_object =
      occurrence_key_for_event subject event_type action_role time none primary_object

  -- `Uuid::to_string`, of the crate uuid.
  module _ (uuid_text : Uuid → Text) where
    unfoldable pub mention_key : Mention → Text
    unfolding normalize_surface role_as_str
    mention_key m =
        normalize_surface u m.surface
        ++ b':'
          ∷ (elim m.entity_id [ none ↦ [] | some id ↦ uuid_text id ]
              ++ b':' ∷ elim m.role [ none ↦ [] | some role ↦ role_as_str role ])

    unfoldable pub candidate_fingerprint :
        Text → Text → Text → Text → TypedTime → Option Text → Text → ℤ → ℤ → ℤ → List Mention → Text
    unfolding sha_hex mention_key sort_by text_le normalize_surface
    candidate_fingerprint version subject event_type predicate time place snapshot_id clause start
          end participants =
        sha_hex (
          version
          ∷ normalize_surface u subject
          ∷ event_type
          ∷ predicate
          ∷ canonical_key time
          ∷ normalize_surface u (unwrap_or place [])
          ∷ snapshot_id
          ∷ show_int clause
          ∷ show_int start
          ∷ show_int end
          ∷ join (sort_by text_le (map mention_key participants)) (b',' ∷ [])
          ∷ [])

    unfoldable pub fingerprint_from_candidate : EventCandidate → Text
    unfolding candidate_fingerprint
    fingerprint_from_candidate c =
        candidate_fingerprint c.extractor_version c.subject_surface c.event_type c.predicate c.time
          c.place_label (uuid_text c.snapshot_id) c.clause_index (start_of (first c.evidence_ptrs))
          (end_of (first c.evidence_ptrs)) c.participant_mentions

  unfoldable pub event_fingerprint : Text → Text → Text → TypedTime → Option Text → List Text → Text
  unfolding sha_hex sort_by text_le
  event_fingerprint subject_id event_type predicate time place_id participant_ids = sha_hex (
      codes "event"
      ∷ subject_id
      ∷ event_type
      ∷ predicate
      ∷ canonical_key time
      ∷ unwrap_or place_id []
      ∷ join (sort_by text_le participant_ids) (b',' ∷ [])
      ∷ [])
