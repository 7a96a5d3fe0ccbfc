-- ===== src/Gates/Tests.antt =====
-- Runs of the gates, and their theorems at a concrete input: a battle of a subject born in 1769 who
-- died in 1821.
use talaria_v.Base.{
  ℕ, ◌≡◌, refl, ◌≢◌, ◌↔◌, true, false, [], ◌∷◌, none, some, pos, ◌≤ℤ◌, ◌+◌, ◌≤◌, arith, sub_i32,
  wrap32,
}
use talaria_v.Text.{codes}
use talaria_v.Text.Sample.{ascii_tables}
use talaria_v.Time.{exact, year_for_gates}
use talaria_v.Gates.Candidate.{EventCandidate, pending}
use talaria_v.Gates.Codes.{event_after_subject_death, accept, reject, contains_code}
use talaria_v.Gates.{
  GateContext, is_unknown, event_implies_subject_presence, all_gates, implausible_age, apply_gates,
}
use talaria_v.Gates.Reasons.{reports, Reason, IsBirth, IsDeath, apply_gates-reports_iff}
use talaria_v.Gates.Acceptance.{NoReason, IsUnknown, apply_gates-accept_iff}
use talaria_v.Gates.Lifespan.{accepted-lifespan, accepted-before_death}

abbrev battle_in : ℕ → EventCandidate
battle_in year = record {
  id = 1;
  snapshot_id = 0;
  fragment_id = 0;
  clause_index = pos 0;
  subject_surface = codes "Subject";
  subject_entity_id = some 7;
  event_type = codes "battle";
  predicate = codes "occurs";
  time = exact (pos year) none none none;
  place_mentions = [];
  object_mentions = [];
  participant_mentions = [];
  place_entity_id = none;
  place_label = some (codes "Paris");
  evidence_ptrs =
      record {
        fragment_id = 0;
        clause_index = pos 0;
        start_offset = pos 0;
        end_offset = pos 8;
        quoted_text = codes "evidence";
      }
      ∷ [];
  extractor_version = codes "v1";
  fingerprint = codes "fp";
  status = pending;
  rejection_codes = [];
}

abbrev born_1769 : GateContext
born_1769 = record {
  subject_birth_year = some (pos 1769);
  subject_death_year = some (pos 1821);
  has_active_birth = true;
  has_active_death = false;
  fingerprint_exists = false;
  cross_clause_join_detected = false;
  place_entity_kind = none;
  subject_confirmed_alive = false;
}

battle_accepted : apply_gates ascii_tables (battle_in 1813) born_1769 ≡ accept
unfolding apply_gates all_gates implausible_age codes event_implies_subject_presence sub_i32 wrap32
    is_unknown
battle_accepted = refl

late_battle :
    apply_gates ascii_tables (battle_in 1840) born_1769 ≡ reject (event_after_subject_death ∷ [])
unfolding apply_gates all_gates implausible_age codes event_implies_subject_presence sub_i32 wrap32
    contains_code
late_battle = refl

not-IsBirth : ¬ IsBirth (battle_in 1813)
unfolding codes
not-IsBirth e = ground arith

not-IsDeath : ¬ IsDeath (battle_in 1813)
unfolding codes
not-IsDeath e = ground arith

present :
    event_implies_subject_presence (battle_in 1813).event_type (battle_in 1813).predicate ≡ true
unfolding event_implies_subject_presence codes
present = refl

year_1813 : year_for_gates (battle_in 1813).time ≡ some (pos 1813)
unfolding year_for_gates
year_1813 = refl

apply_gates-reports_iff_example :
    (reports (apply_gates ascii_tables (battle_in 1840) born_1769) event_after_subject_death ≡ true)
    ↔ Reason ascii_tables (battle_in 1840) born_1769 event_after_subject_death
apply_gates-reports_iff_example =
    apply_gates-reports_iff ascii_tables (battle_in 1840) born_1769 event_after_subject_death

apply_gates-accept_iff_example : (apply_gates ascii_tables (battle_in 1813) born_1769 ≡ accept) ↔ (
    NoReason ascii_tables (battle_in 1813) born_1769
    × (¬ IsUnknown (battle_in 1813).time)
    × ((battle_in 1813).subject_entity_id ≢ none))
apply_gates-accept_iff_example = apply_gates-accept_iff ascii_tables (battle_in 1813) born_1769

accepted-lifespan_example : (pos 1769 ≤ℤ pos 1813) × (1813 + 0 ≤ 1769 + 0 + 120)
accepted-lifespan_example =
    accepted-lifespan ascii_tables (battle_in 1813) born_1769 battle_accepted (pos 1813) (pos 1769)
      year_1813 refl (omega arith) (omega arith) not-IsBirth

accepted-before_death_example : pos 1813 ≤ℤ pos 1821
accepted-before_death_example =
    accepted-before_death ascii_tables (battle_in 1813) born_1769 battle_accepted (pos 1813)
      (pos 1821) year_1813 refl not-IsDeath present
