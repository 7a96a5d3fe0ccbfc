-- ===== src/Gates/Lifespan.antt =====
-- How an accepted event lies in the life of its subject.
use talaria_v.Base.{
  ◌≡◌, Bool, true, false, Option, some, ℤ, pos, ◌<ℤ◌, ◌≤ℤ◌, ◌+◌, ◌≤◌, ◌<◌, ◌^◌, sub_i32, wrap32,
  pos_part, neg_part, arith, inl,
}
use talaria_v.Text.{Text, is}
use talaria_v.Text.Equality.{is_iff}
use talaria_v.Text.Unicode.{Unicode}
use talaria_v.Time.{year_for_gates}
use talaria_v.Gates.Candidate.{EventCandidate}
use talaria_v.Gates.Codes.{
  accept, event_before_subject_birth, implausible_age_for_event_type, event_after_subject_death,
}
use talaria_v.Gates.{
  GateContext, event_implies_subject_presence, first_quote, implausible_age, apply_gates,
}
use talaria_v.Gates.Reasons.{IsBirth, IsDeath, Both}
use talaria_v.Gates.Acceptance.{apply_gates-accept_iff}

-- The values of an `i32`.
abbrev pub IsI32 : ℤ → Type 0
IsI32 x = (pos_part x < 2 ^ 31) × (neg_part x ≤ 2 ^ 31)

-- For every type but a birth, a plausible age is from 0 to 120.
plausible_age_bounds :
    (u : Unicode) (event_type : Text) (age : ℤ) (evidence : Text)
    → is event_type "birth" ≡ false
    → implausible_age u event_type age evidence ≡ false
    → (pos 0 ≤ℤ age) × (age ≤ℤ pos 120)
unfolding implausible_age
plausible_age_bounds u event_type age evidence h k = ground arith

-- A difference of years that is plausible has not wrapped around.
sub_i32-plausible :
    (x y : ℤ)
    → IsI32 x
    → IsI32 y
    → y ≤ℤ x
    → pos 0 ≤ℤ sub_i32 x y
    → sub_i32 x y ≤ℤ pos 120
    → pos_part x + neg_part y ≤ pos_part y + neg_part x + 120
unfolding sub_i32 wrap32
sub_i32-plausible x y hx hy order low high = ground arith

Both-intro :
    (P : ℤ → ℤ → Type 0) {a b : Option ℤ} {x y : ℤ} → a ≡ some x → b ≡ some y → P x y → Both a b P
Both-intro P e k p = rw (e, k) p

not_true : {b : Bool} → ¬ (b ≡ true) → b ≡ false
not_true {b} h = ground arith

not-IsBirth : (c : EventCandidate) → ¬ IsBirth c → is c.event_type "birth" ≡ false
not-IsBirth c other = not_true λ h. other ((is_iff c.event_type "birth").0 h)

module _ (u : Unicode) (c : EventCandidate) (ctx : GateContext)
    (accepted : apply_gates u c ctx ≡ accept) where
  -- An accepted event that is no birth, with its year and the subject's year of birth known, lies in
  -- the first 120 years after the birth.
  pub accepted-lifespan :
      (ey by : ℤ)
      → year_for_gates c.time ≡ some ey
      → ctx.subject_birth_year ≡ some by
      → IsI32 ey
      → IsI32 by
      → ¬ IsBirth c
      → (by ≤ℤ ey) × (pos_part ey + neg_part by ≤ pos_part by + neg_part ey + 120)
  accepted-lifespan ey by timed born hey hby other =
      let age = sub_i32 ey by in
      let evidence = first_quote c.evidence_ptrs in
      let reasons = ((apply_gates-accept_iff u c ctx).0 accepted).0 in
      let not_early : ¬ (ey <ℤ by) =
        λ h. reasons event_before_subject_birth (Both-intro _ timed born (h, other)) in
      let plausible : implausible_age u c.event_type age evidence ≡ false =
        not_true λ h. reasons implausible_age_for_event_type (Both-intro _ timed born (other, h)) in
      let bounds =
        plausible_age_bounds u c.event_type age evidence (not-IsBirth c other) plausible in
      (omega arith, sub_i32-plausible ey by hey hby (omega arith) bounds.0 bounds.1)

  -- An accepted event that implies the subject's presence and is no death is not after the known
  -- year of death.
  pub accepted-before_death :
      (ey dy : ℤ)
      → year_for_gates c.time ≡ some ey
      → ctx.subject_death_year ≡ some dy
      → ¬ IsDeath c
      → event_implies_subject_presence c.event_type c.predicate ≡ true
      → ey ≤ℤ dy
  accepted-before_death ey dy timed died other present =
      let reasons = ((apply_gates-accept_iff u c ctx).0 accepted).0 in
      let not_late : ¬ (dy <ℤ ey) = λ h.
        reasons event_after_subject_death (Both-intro _ timed died (h, inl (other, present))) in
      omega arith
