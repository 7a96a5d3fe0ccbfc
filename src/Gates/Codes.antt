-- ===== src/Gates/Codes.antt =====
-- `RejectionCode` and `GateDecision` of crates/talaria-quality/src/gates.rs.
pub mod Laws
use talaria_v.Base.{
  ℕ, ◌==◌, ◌||◌, Bool, true, false, List, [], ◌∷◌, Option, none, some, if◌then◌else◌, arith, String,
  map,
}
use talaria_v.Text.{Text, codes, is}
use talaria_v.Gates.Candidate.{CandidateStatus, accepted, needs_review, rejected}

pub data RejectionCode : Type 0 where
  cross_clause_join : RejectionCode
  invalid_place_kind : RejectionCode
  event_before_subject_birth : RejectionCode
  event_after_subject_death : RejectionCode
  implausible_age_for_event_type : RejectionCode
  singleton_cardinality_violation : RejectionCode
  missing_evidence : RejectionCode
  duplicate_candidate : RejectionCode
  competing_place : RejectionCode
  subject_not_attributed : RejectionCode
  death_for_living_subject : RejectionCode
  death_before_or_at_birth : RejectionCode

pub RejectionCode-discrete : Discrete RejectionCode
RejectionCode-discrete = hlevel

abbrev pub name : RejectionCode → String
name cross_clause_join = "cross_clause_join"
name invalid_place_kind = "invalid_place_kind"
name event_before_subject_birth = "event_before_subject_birth"
name event_after_subject_death = "event_after_subject_death"
name implausible_age_for_event_type = "implausible_age_for_event_type"
name singleton_cardinality_violation = "singleton_cardinality_violation"
name missing_evidence = "missing_evidence"
name duplicate_candidate = "duplicate_candidate"
name competing_place = "competing_place"
name subject_not_attributed = "subject_not_attributed"
name death_for_living_subject = "death_for_living_subject"
name death_before_or_at_birth = "death_before_or_at_birth"

-- `RejectionCode::as_str`
unfoldable pub as_str : RejectionCode → Text
unfolding codes
as_str c = codes (name c)

-- `RejectionCode::parse`
unfoldable pub parse : Text → Option RejectionCode
unfolding is
parse s =
    if is s "cross_clause_join"
    then some cross_clause_join
    else if is s "invalid_place_kind"
    then some invalid_place_kind
    else if is s "event_before_subject_birth"
    then some event_before_subject_birth
    else if is s "event_after_subject_death"
    then some event_after_subject_death
    else if is s "implausible_age_for_event_type"
    then some implausible_age_for_event_type
    else if is s "singleton_cardinality_violation"
    then some singleton_cardinality_violation
    else if is s "missing_evidence"
    then some missing_evidence
    else if is s "duplicate_candidate"
    then some duplicate_candidate
    else if is s "competing_place"
    then some competing_place
    else if is s "subject_not_attributed"
    then some subject_not_attributed
    else if is s "death_for_living_subject"
    then some death_for_living_subject
    else if is s "death_before_or_at_birth"
    then some death_before_or_at_birth
    else none

pub data GateDecision : Type 0 where
  accept : GateDecision
  review : GateDecision
  reject : List RejectionCode → GateDecision

-- `GateDecision::status`
unfoldable pub status : GateDecision → CandidateStatus
status accept = accepted
status review = needs_review
status (reject codes) = rejected

-- `GateDecision::codes`
unfoldable pub decision_codes : GateDecision → List Text
unfolding as_str
decision_codes accept = []
decision_codes review = []
decision_codes (reject cs) = map as_str cs

-- Equality of codes is that of their discriminants.
unfoldable pub discriminant : RejectionCode → ℕ
discriminant cross_clause_join = 0
discriminant invalid_place_kind = 1
discriminant event_before_subject_birth = 2
discriminant event_after_subject_death = 3
discriminant implausible_age_for_event_type = 4
discriminant singleton_cardinality_violation = 5
discriminant missing_evidence = 6
discriminant duplicate_candidate = 7
discriminant competing_place = 8
discriminant subject_not_attributed = 9
discriminant death_for_living_subject = 10
discriminant death_before_or_at_birth = 11

unfoldable pub same_code : RejectionCode → RejectionCode → Bool
unfolding discriminant
same_code a b = discriminant a == discriminant b

-- `codes.contains(&c)`
unfoldable pub contains_code : List RejectionCode → RejectionCode → Bool
contains_code [] c = false
contains_code (d ∷ ds) c = same_code d c || contains_code ds c

-- `rejects.retain(|c| seen.insert(*c))`: the first of each code stays, in order.
unfoldable pub retain_first : List RejectionCode → List RejectionCode → List RejectionCode
retain_first seen [] = []
retain_first seen (c ∷ cs) =
    let fresh = c ∷ retain_first (c ∷ seen) cs in
    let repeated = retain_first seen cs in if contains_code seen c then repeated else fresh
