-- ===== src/Lifecycle.antt =====
-- What happens to candidates around the gates: the names of kinds and statuses in
-- crates/talaria-quality/src/model.rs, and resume.rs, overlay.rs, places.rs and projections.rs beside it.
pub mod Labels
pub mod Names
mod Tests
use talaria_v.Base.{
  Bool, true, false, not, ◌||◌, List, [], ◌∷◌, ◌++◌, Option, none, some, ℕ, ℤ, if◌then◌else◌,
  is_empty, drop,
}
use talaria_v.Text.{Text, codes, is, is_one_of, trim, starts_with}
use talaria_v.Text.Unicode.{Unicode}
use talaria_v.Explorer.{is_wikidata_qid, trimmed}
use talaria_v.Gates.Candidate.{
  EntityKind, person, place, object, organization, unknown, CandidateStatus, pending, needs_review,
  accepted, rejected, assembled,
}

-- `EntityKind::as_str`
unfoldable pub kind_as_str : EntityKind → Text
unfolding codes
kind_as_str person = codes "person"
kind_as_str place = codes "place"
kind_as_str object = codes "object"
kind_as_str organization = codes "organization"
kind_as_str unknown = codes "unknown"

-- The `match` of `EntityKind::parse`.
unfoldable pub kind_of : Text → EntityKind
unfolding is
kind_of s =
    if is s "person"
    then person
    else if is s "place"
    then place
    else if is s "object"
    then object
    else if is s "organization"
    then organization
    else unknown

-- `EntityKind::parse`
unfoldable pub parse_kind : Unicode → Text → EntityKind
parse_kind u raw = kind_of (u.to_lowercase (trim raw))

-- `CandidateStatus::as_str`
unfoldable pub status_as_str : CandidateStatus → Text
unfolding codes
status_as_str pending = codes "pending"
status_as_str needs_review = codes "needs_review"
status_as_str accepted = codes "accepted"
status_as_str rejected = codes "rejected"
status_as_str assembled = codes "assembled"

pub data ExistingCandidateAction : Type 0 where
  skip_terminal resume_from_gates resume_assemble_only : ExistingCandidateAction

unfoldable pub existing_candidate_action : Text → ExistingCandidateAction
unfolding is is_one_of
existing_candidate_action status =
    if is_one_of status ("assembled" ∷ "rejected" ∷ [])
    then skip_terminal
    else if is status "accepted"
    then resume_assemble_only
    else resume_from_gates

unfoldable pub should_reinforce_existing_event : Bool → Bool
should_reinforce_existing_event is_new_candidate = is_new_candidate

pub record OverlayItem : Type 0 where
  pub i : ℕ
  pub event_type : Text
  pub year : Option ℤ
  pub place_of : Option Text
  pub clause : Text

pub record OverlayVerdict : Type 0 where
  pub i : ℕ
  pub keep_timeline : Bool
  pub keep_map : Bool
  pub place_ok : Bool
  pub event_type : Option Text
  pub reason : Text

pub record OverlayEffect : Type 0 where
  pub drop_event : Bool
  pub strip_place : Bool
  pub event_type : Option Text

unfoldable pub overlay_effect : OverlayVerdict → OverlayEffect
unfolding trimmed
overlay_effect v = record {
  drop_event = not v.keep_timeline;
  strip_place = not v.keep_map || not v.place_ok;
  event_type = trimmed v.event_type;
}

pub record PlaceQuery : Type 0 where
  pub surface : Text
  pub search_keys : List Text

-- The key behind an article, which `strip_prefix` leaves.
abbrev article_key : Text → List Text
article_key s =
    if starts_with s (codes "The ") || starts_with s (codes "the ")
    then (if is_empty (drop 4 s) then [] else drop 4 s ∷ [])
    else []

unfoldable pub place_query : Text → PlaceQuery
unfolding trim is_wikidata_qid starts_with codes
place_query raw =
    let t = trim raw in
    record { surface = t; search_keys = if is_wikidata_qid t then t ∷ [] else t ∷ article_key t }
