-- ===== src/Gates/Reasons.antt =====
-- Why a candidate is rejected: `apply_gates` reports a code exactly when its reason holds.
use talaria_v.Base.{
  ◌≡◌, refl, ◌≢◌, ◌↔◌, ◌⊎◌, inl, inr, Bool, true, false, not, ◌&&◌, ◌||◌, List, [], ◌∷◌, Option,
  none, some, ℤ, ◌<ℤ◌, ◌≤ℤ◌, ltb_ℤ, leb_ℤ, eqb_ℤ, sub_i32, is_empty, is_some, is_none, arith, Any,
  Option-cases,
}
use mathlib.Core.Bool.{and-true, and-false, or-false}
use talaria_v.Text.{codes, is}
use talaria_v.Text.Equality.{is_iff}
use talaria_v.Text.Unicode.{Unicode}
use talaria_v.Time.{year_for_gates}
use talaria_v.Gates.Candidate.{EntityKind, place, is_place, Mention, EventCandidate}
use talaria_v.Gates.Codes.{
  RejectionCode, cross_clause_join, invalid_place_kind, event_before_subject_birth,
  event_after_subject_death, implausible_age_for_event_type, singleton_cardinality_violation,
  missing_evidence, duplicate_candidate, competing_place, subject_not_attributed,
  death_for_living_subject, death_before_or_at_birth, GateDecision, accept, review, reject,
  same_code, contains_code,
}
use talaria_v.Gates.Codes.Laws.{contains_code-append, contains_code-retain_first}
use talaria_v.Gates.{
  GateContext, event_implies_subject_presence, gate, wrong_mention, kind_is_place, first_quote,
  both, implausible_age, all_gates, apply_gates,
}

-- The decision reports a code.
abbrev pub reports : GateDecision → RejectionCode → Bool
reports accept r = false
reports review r = false
reports (reject cs) r = contains_code cs r

-- Both years are known, and `P` holds of them.
abbrev pub Both : Option ℤ → Option ℤ → (ℤ → ℤ → Type 0) → Type 0
Both none y P = ⊥
Both (some x) none P = ⊥
Both (some x) (some y) P = P x y

abbrev pub IsBirth : EventCandidate → Type 0
IsBirth c = c.event_type ≡ codes "birth"

abbrev pub IsDeath : EventCandidate → Type 0
IsDeath c = c.event_type ≡ codes "death"

-- The mention is resolved, to something that is not a place.
abbrev pub IsMisplaced : Mention → Type 0
IsMisplaced m = (kind : EntityKind) × (m.kind ≡ some kind) × (kind ≢ place)

abbrev pub Reason : Unicode → EventCandidate → GateContext → RejectionCode → Type 0
Reason u c ctx cross_clause_join = ctx.cross_clause_join_detected ≡ true
Reason u c ctx missing_evidence = c.evidence_ptrs ≡ []
Reason u c ctx duplicate_candidate = ctx.fingerprint_exists ≡ true
Reason u c ctx invalid_place_kind =
    ((c.place_entity_id ≢ none) × (ctx.place_entity_kind ≢ some place))
    ⊎ Any IsMisplaced c.place_mentions
Reason u c ctx event_before_subject_birth =
    Both (year_for_gates c.time) ctx.subject_birth_year (λ ey by. (ey <ℤ by) × (¬ IsBirth c))
Reason u c ctx implausible_age_for_event_type =
    Both (year_for_gates c.time) ctx.subject_birth_year (λ ey by.
      (¬ IsBirth c)
      × (implausible_age u c.event_type (sub_i32 ey by) (first_quote c.evidence_ptrs) ≡ true))
Reason u c ctx event_after_subject_death =
    Both (year_for_gates c.time) ctx.subject_death_year (λ ey dy.
      (dy <ℤ ey)
      × ((¬ IsDeath c × (event_implies_subject_presence c.event_type c.predicate ≡ true))
          ⊎ (IsDeath c × (ctx.has_active_death ≡ true))))
Reason u c ctx singleton_cardinality_violation =
    (IsBirth c × (ctx.has_active_birth ≡ true)) ⊎ (IsDeath c × (ctx.has_active_death ≡ true))
Reason u c ctx death_for_living_subject =
    IsDeath c × (ctx.subject_confirmed_alive ≡ true) × (ctx.subject_death_year ≡ none)
Reason u c ctx death_before_or_at_birth =
    IsDeath c × Both (year_for_gates c.time) ctx.subject_birth_year (λ ey by. ey ≤ℤ by)
Reason u c ctx competing_place = ⊥
Reason u c ctx subject_not_attributed = ⊥

contains_code-gate :
    (b : Bool) (c r : RejectionCode) → contains_code (gate b c) r ≡ (b && same_code c r)
unfolding contains_code gate
contains_code-gate true c r = ground arith
contains_code-gate false c r = refl

-- What is reported is what some gate pushed.
pub reports-apply_gates :
    (u : Unicode) (c : EventCandidate) (ctx : GateContext) (r : RejectionCode)
    → reports (apply_gates u c ctx) r ≡ contains_code (all_gates u c ctx) r
unfolding apply_gates contains_code
reports-apply_gates u c ctx r = ground (arith, contains_code-retain_first [] (all_gates u c ctx) r)

misplaced_iff :
    {P : Type 0} (kind : EntityKind) (later : Bool)
    → (later ≡ true) ↔ P
    → ((not (is_place kind) || later) ≡ true)
      ↔ (((k : EntityKind) × (◌≡◌ {A = Option EntityKind} (some kind) (some k)) × (k ≢ place)) ⊎ P)
unfolding is_place
misplaced_iff place later h =
    (λ e. inr (h.0 e), elim [ inl (k, same, other) ↦ absurd (other (cc)) | inr p ↦ h.1 p ])
misplaced_iff kind later h = (λ e. inl (kind, refl, ground arith), λ e. refl)

wrong_mention_iff : (ms : List Mention) → (wrong_mention ms ≡ true) ↔ Any IsMisplaced ms
unfolding wrong_mention is_place
wrong_mention_iff [] = ground arith
wrong_mention_iff (m ∷ ms) = elim (Option-cases m.kind) [
  | inl absent ↦ rw absent (ground (arith, wrong_mention_iff ms))
  | inr (kind, present) ↦ rw present (misplaced_iff kind (wrong_mention ms) (wrong_mention_iff ms))
]

kind_is_place_iff : (kind : Option EntityKind) → (kind_is_place kind ≡ true) ↔ (kind ≡ some place)
unfolding kind_is_place
kind_is_place_iff kind = ground arith

ruleset bool_laws = (contains_code-append, contains_code-gate, and-true, and-false, or-false)

-- What each code's reason comes to, as a test.
abbrev flag : Unicode → EventCandidate → GateContext → RejectionCode → Bool
flag u c ctx cross_clause_join = ctx.cross_clause_join_detected
flag u c ctx missing_evidence = is_empty c.evidence_ptrs
flag u c ctx duplicate_candidate = ctx.fingerprint_exists
flag u c ctx invalid_place_kind =
    is_some c.place_entity_id && not (kind_is_place ctx.place_entity_kind)
    || wrong_mention c.place_mentions
flag u c ctx event_before_subject_birth =
    both (year_for_gates c.time) ctx.subject_birth_year
      (λ ey by. ltb_ℤ ey by && not (is c.event_type "birth"))
flag u c ctx implausible_age_for_event_type =
    both (year_for_gates c.time) ctx.subject_birth_year (λ ey by.
      not (is c.event_type "birth")
      && implausible_age u c.event_type (sub_i32 ey by) (first_quote c.evidence_ptrs))
flag u c ctx event_after_subject_death =
    both (year_for_gates c.time) ctx.subject_death_year (λ ey dy.
      ltb_ℤ dy ey
      && not (is c.event_type "death")
      && event_implies_subject_presence c.event_type c.predicate)
    || both (year_for_gates c.time) ctx.subject_death_year (λ ey dy.
      is c.event_type "death" && not (eqb_ℤ ey dy) && ctx.has_active_death && ltb_ℤ dy ey)
flag u c ctx singleton_cardinality_violation =
    is c.event_type "birth" && ctx.has_active_birth
    || is c.event_type "death" && ctx.has_active_death
flag u c ctx death_for_living_subject =
    is c.event_type "death" && ctx.subject_confirmed_alive && is_none ctx.subject_death_year
flag u c ctx death_before_or_at_birth =
    is c.event_type "death"
    && both (year_for_gates c.time) ctx.subject_birth_year (λ ey by. leb_ℤ ey by)
flag u c ctx competing_place = false
flag u c ctx subject_not_attributed = false

module _ (u : Unicode) (c : EventCandidate) (ctx : GateContext) where
  pushed : (r : RejectionCode) → contains_code (all_gates u c ctx) r ≡ flag u c ctx r
  unfolding all_gates same_code
  pushed cross_clause_join = simp bool_laws
  pushed _ = simp bool_laws

  flag_iff : (r : RejectionCode) → (flag u c ctx r ≡ true) ↔ Reason u c ctx r
  flag_iff cross_clause_join = ground arith
  flag_iff missing_evidence = ground arith
  flag_iff duplicate_candidate = ground arith
  flag_iff invalid_place_kind =
      ground (arith, wrong_mention_iff c.place_mentions, kind_is_place_iff ctx.place_entity_kind)
  flag_iff event_before_subject_birth = ground (arith, is_iff c.event_type "birth")
  flag_iff implausible_age_for_event_type = ground (arith, is_iff c.event_type "birth")
  flag_iff event_after_subject_death = ground (arith, is_iff c.event_type "death")
  flag_iff singleton_cardinality_violation =
      ground (arith, is_iff c.event_type "birth", is_iff c.event_type "death")
  flag_iff death_for_living_subject = ground (arith, is_iff c.event_type "death")
  flag_iff death_before_or_at_birth = ground (arith, is_iff c.event_type "death")
  flag_iff competing_place = ground arith
  flag_iff subject_not_attributed = ground arith

  -- A code is reported exactly when its reason holds. The reasons are: for `cross_clause_join` and
  -- `duplicate_candidate` the flag of the context; for `missing_evidence` that there is no evidence;
  -- for `invalid_place_kind` a place entity whose kind is not a place, or a mention resolved to
  -- another kind; for `event_before_subject_birth` both years known, the event's the smaller, and no
  -- birth; for `implausible_age_for_event_type` both years known, no birth, and an implausible
  -- difference; for `event_after_subject_death` both years known, the event's the larger, and the
  -- event either implies presence and is no death, or is a second death; for
  -- `singleton_cardinality_violation` a second birth or death; for `death_for_living_subject` a death
  -- of a subject confirmed alive with no known year of death; for `death_before_or_at_birth` a death
  -- in or before the known year of birth; the other two codes are never reported.
  pub apply_gates-reports_iff :
      (r : RejectionCode) → (reports (apply_gates u c ctx) r ≡ true) ↔ Reason u c ctx r
  apply_gates-reports_iff r = rw (reports-apply_gates, pushed) (flag_iff r)
