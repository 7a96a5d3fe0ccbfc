-- ===== src/Gates/Candidate.antt =====
-- The event candidate of crates/talaria-quality/src/model.rs and the values that it holds. A `Uuid`
-- is its number.
use talaria_v.Base.{ℕ, Bool, true, false, List, Option, none, some, ℤ}
use talaria_v.Text.{Text}
use talaria_v.Time.{TypedTime}

abbrev pub Uuid : Type 0
Uuid = ℕ

pub data EntityKind : Type 0 where
  person place object organization unknown : EntityKind

pub EntityKind-discrete : Discrete EntityKind
EntityKind-discrete = hlevel

-- `kind == EntityKind::Place`
unfoldable pub is_place : EntityKind → Bool
is_place place = true
is_place _ = false

-- `kind == EntityKind::Person`
unfoldable pub is_person : EntityKind → Bool
is_person person = true
is_person _ = false

pub data ParticipantRole : Type 0 where
  spouse participant opponent ally other : ParticipantRole

pub data CandidateStatus : Type 0 where
  pending needs_review accepted rejected assembled : CandidateStatus

pub record Mention : Type 0 where
  pub surface : Text
  pub entity_id : Option Uuid
  pub kind : Option EntityKind
  pub role : Option ParticipantRole

pub record EvidencePtr : Type 0 where
  pub fragment_id : Uuid
  pub clause_index : ℤ
  pub start_offset : ℤ
  pub end_offset : ℤ
  pub quoted_text : Text

pub record EventCandidate : Type 0 where
  pub id : Uuid
  pub snapshot_id : Uuid
  pub fragment_id : Uuid
  pub clause_index : ℤ
  pub subject_surface : Text
  pub subject_entity_id : Option Uuid
  pub event_type : Text
  pub predicate : Text
  pub time : TypedTime
  pub place_mentions : List Mention
  pub object_mentions : List Mention
  pub participant_mentions : List Mention
  pub place_entity_id : Option Uuid
  pub place_label : Option Text
  pub evidence_ptrs : List EvidencePtr
  pub extractor_version : Text
  pub fingerprint : Text
  pub status : CandidateStatus
  pub rejection_codes : List Text

-- `assert_place_kind_invariant`
unfoldable pub assert_place_kind_invariant : EventCandidate → Option EntityKind → Bool
unfolding is_place
assert_place_kind_invariant c kind = elim c.place_entity_id [
  | none ↦ true
  | some e ↦ elim kind [ none ↦ false | some k ↦ is_place k ]
]
