-- ===== src/Gates.antt =====
-- The quality gates: crates/talaria-quality/src/gates.rs, over the candidate of
-- crates/talaria-quality/src/model.rs (Gates/Candidate) and the rejection codes (Gates/Codes). Each
-- `if` of `apply_gates` that pushes a code is a list of its own; they are appended in the order of
-- the source.
pub mod Codes
pub mod Candidate
pub mod Reasons
pub mod Acceptance
pub mod Lifespan
mod Tests
use talaria_v.Base.{
  Bool, true, false, not, ◌&&◌, ◌||◌, List, [], ◌∷◌, ◌++◌, Option, none, some, ℤ, pos, ltb_ℤ, leb_ℤ,
  eqb_ℤ, sub_i32, if◌then◌else◌, is_empty, is_none, is_some,
}
use talaria_v.Text.{Text, is, is_one_of, contains_any}
use talaria_v.Text.Unicode.{Unicode}
use talaria_v.Time.{TypedTime, unknown, exact, year_for_gates}
use Candidate.{EntityKind, is_place, Mention, EvidencePtr, EventCandidate}
use Codes.{
  RejectionCode, cross_clause_join, invalid_place_kind, event_before_subject_birth,
  event_after_subject_death, implausible_age_for_event_type, singleton_cardinality_violation,
  missing_evidence, duplicate_candidate, death_for_living_subject, death_before_or_at_birth,
  GateDecision, accept, review, reject, retain_first,
}

pub record GateContext : Type 0 where
  pub subject_birth_year : Option ℤ
  pub subject_death_year : Option ℤ
  pub has_active_birth : Bool
  pub has_active_death : Bool
  pub fingerprint_exists : Bool
  pub cross_clause_join_detected : Bool
  pub place_entity_kind : Option EntityKind
  pub subject_confirmed_alive : Bool

-- `event_implies_subject_presence`
unfoldable pub event_implies_subject_presence : Text → Text → Bool
unfolding is_one_of
event_implies_subject_presence event_type predicate =
    if is_one_of event_type (
      "publication" ∷ "commemoration" ∷ "award" ∷ "museum" ∷ "memorial" ∷ "statue" ∷ "street_naming"
      ∷ [])
    then false
    else not (is_one_of predicate ("commemorated_at" ∷ "published" ∷ "awarded" ∷ []))

-- `event_type_is_map_locus`
unfoldable pub event_type_is_map_locus : Text → Bool
unfolding is_one_of
event_type_is_map_locus event_type = is_one_of event_type (
    "birth" ∷ "death" ∷ "residence" ∷ "arrival" ∷ "departure" ∷ "passage" ∷ "meeting" ∷ "exile"
    ∷ "battle" ∷ "siege" ∷ "education" ∷ "office" ∷ "marriage" ∷ "divorce" ∷ "travel"
    ∷ "imprisonment" ∷ "diplomatic" ∷ "employment" ∷ "work" ∷ "burial" ∷ "treaty" ∷ "health_event"
    ∷ "trial" ∷ "legal_event" ∷ "political_event" ∷ [])

-- `age < low || age > high`
abbrev pub outside : ℤ → ℤ → ℤ → Bool
outside age low high = ltb_ℤ age low || ltb_ℤ high age

-- `vec![code]` under the condition, else nothing.
unfoldable pub gate : Bool → RejectionCode → List RejectionCode
gate fires code = if fires then code ∷ [] else []

-- Some place mention is resolved to a kind that is not a place.
unfoldable pub wrong_mention : List Mention → Bool
unfolding is_place
wrong_mention [] = false
wrong_mention (m ∷ ms) =
    elim m.kind [ none ↦ false | some kind ↦ not (is_place kind) ] || wrong_mention ms

unfoldable pub kind_is_place : Option EntityKind → Bool
unfolding is_place
kind_is_place none = false
kind_is_place (some kind) = is_place kind

unfoldable pub is_unknown : TypedTime → Bool
is_unknown (unknown surface) = true
is_unknown (exact y m d surface) = false
is_unknown _ = false

-- `evidence_ptrs.first().map(quoted_text).unwrap_or("")`
unfoldable pub first_quote : List EvidencePtr → Text
first_quote [] = []
first_quote (e ∷ es) = e.quoted_text

-- `if let (Some(a), Some(b)) = …`, with the condition that the body tests.
abbrev pub both : Option ℤ → Option ℤ → (ℤ → ℤ → Bool) → Bool
both none y test = false
both (some x) none test = false
both (some x) (some y) test = test x y

module _ (u : Unicode) where
  unfoldable pub looks_like_accession : Text → Bool
  unfolding contains_any
  looks_like_accession evidence = contains_any (u.to_lowercase evidence) (
      "crowned" ∷ "couronné" ∷ "couronne" ∷ "became king" ∷ "became queen" ∷ "became emperor"
      ∷ "became empress" ∷ "accession" ∷ "succeeded" ∷ "sacré roi" ∷ "proclaimed emperor"
      ∷ "proclamé empereur" ∷ "devint roi" ∷ "devient roi" ∷ "devint empereur" ∷ "king of"
      ∷ "queen of" ∷ "empereur" ∷ "monarch" ∷ "roi de" ∷ "reine de" ∷ "held_office" ∷ [])

  -- `implausible_age`
  unfoldable pub implausible_age : Text → ℤ → Text → Bool
  unfolding is_one_of
  implausible_age event_type age evidence =
      if is event_type "birth"
      then false
      else if is event_type "death"
      then outside age (pos 0) (pos 120)
      else if is_one_of event_type ("marriage" ∷ "divorce" ∷ [])
      then outside age (pos 12) (pos 100)
      else if is_one_of event_type ("battle" ∷ "employment" ∷ "exile" ∷ "imprisonment" ∷ [])
      then outside age (pos 10) (pos 100)
      else if is_one_of event_type ("office" ∷ "diplomatic" ∷ [])
      then if outside age (pos 0) (pos 100)
        then true
        else if ltb_ℤ age (pos 12)
        then not (looks_like_accession evidence)
        else false
      else if is event_type "education"
      then outside age (pos 3) (pos 90)
      else outside age (pos 0) (pos 120)

  module _ (c : EventCandidate) (ctx : GateContext) where
    -- Before the place: joins over clauses, evidence, duplicates.
    unfoldable pub source_gates : List RejectionCode
    unfolding gate
    source_gates =
        gate ctx.cross_clause_join_detected cross_clause_join
        ++ (gate (is_empty c.evidence_ptrs) missing_evidence
            ++ gate ctx.fingerprint_exists duplicate_candidate)

    unfoldable pub place_gates : List RejectionCode
    unfolding gate kind_is_place wrong_mention
    place_gates =
        gate (is_some c.place_entity_id && not (kind_is_place ctx.place_entity_kind))
          invalid_place_kind
        ++ gate (wrong_mention c.place_mentions) invalid_place_kind

    unfoldable pub birth_gates : List RejectionCode
    unfolding gate year_for_gates
    birth_gates =
        gate
          (both (year_for_gates c.time) ctx.subject_birth_year
            (λ ey by. ltb_ℤ ey by && not (is c.event_type "birth")))
          event_before_subject_birth
        ++ gate
            (both (year_for_gates c.time) ctx.subject_birth_year (λ ey by.
              not (is c.event_type "birth")
              && implausible_age c.event_type (sub_i32 ey by) (first_quote c.evidence_ptrs)))
            implausible_age_for_event_type

    unfoldable pub death_gates : List RejectionCode
    unfolding gate year_for_gates
    death_gates =
        gate
          (both (year_for_gates c.time) ctx.subject_death_year (λ ey dy.
            ltb_ℤ dy ey
            && not (is c.event_type "death")
            && event_implies_subject_presence c.event_type c.predicate))
          event_after_subject_death
        ++ gate
            (both (year_for_gates c.time) ctx.subject_death_year (λ ey dy.
              is c.event_type "death" && not (eqb_ℤ ey dy) && ctx.has_active_death && ltb_ℤ dy ey))
            event_after_subject_death

    unfoldable pub singleton_gates : List RejectionCode
    unfolding gate
    singleton_gates =
        gate (is c.event_type "birth" && ctx.has_active_birth) singleton_cardinality_violation
        ++ gate (is c.event_type "death" && ctx.has_active_death) singleton_cardinality_violation

    unfoldable pub death_validation_gates : List RejectionCode
    unfolding gate year_for_gates
    death_validation_gates =
        gate
          (is c.event_type "death" && ctx.subject_confirmed_alive && is_none ctx.subject_death_year)
          death_for_living_subject
        ++ gate
            (is c.event_type "death"
              && both (year_for_gates c.time) ctx.subject_birth_year (λ ey by. leb_ℤ ey by))
            death_before_or_at_birth

    -- `rejects` at the end of the pushes.
    unfoldable pub all_gates : List RejectionCode
    unfolding source_gates place_gates birth_gates death_gates singleton_gates
        death_validation_gates
    all_gates =
        source_gates
        ++ (place_gates
            ++ (birth_gates ++ (death_gates ++ (singleton_gates ++ death_validation_gates))))

    -- After the gates: a rejection, or what an unknown time or subject leaves for review.
    abbrev decide_rest : List RejectionCode → GateDecision
    decide_rest (code ∷ codes) = reject (code ∷ codes)
    decide_rest [] =
        if is_unknown c.time then review else if is_none c.subject_entity_id then review else accept

    unfoldable pub apply_gates : GateDecision
    unfolding retain_first
    apply_gates = decide_rest (retain_first [] all_gates)
