-- ===== src/Gates/Acceptance.antt =====
-- What acceptance guarantees: exactly when `apply_gates` accepts,
-- when it leaves the candidate for review, and what a rejection lists.
use talaria_v.Base.{
  ◌≡◌, refl, ◌≢◌, ◌↔◌, ◌⊎◌, inl, inr, false, List, [], ◌∷◌, none, arith, ap, ◌∙◌, Bool-cases,
  List-cases,
}
use talaria_v.Text.Unicode.{Unicode}
use talaria_v.Time.{TypedTime, unknown}
use talaria_v.Gates.Candidate.{EventCandidate}
use talaria_v.Gates.Codes.{RejectionCode, accept, review, reject, contains_code, retain_first}
use talaria_v.Gates.Codes.Laws.{Distinct, retain_first-Distinct, same_code_iff}
use talaria_v.Gates.{decide_rest, GateContext, is_unknown, all_gates, apply_gates}
use talaria_v.Gates.Reasons.{reports, Reason, apply_gates-reports_iff}

abbrev pub IsUnknown : TypedTime → Type 0
IsUnknown (unknown surface) = Unit
IsUnknown _ = ⊥

only_nil : (cs : List RejectionCode) → ((r : RejectionCode) → contains_code cs r ≡ false) → cs ≡ []
unfolding contains_code
only_nil [] h = refl
only_nil (r ∷ cs) h = ground (arith, h r, same_code_iff r r)

-- No code has a reason to be reported.
abbrev pub NoReason : Unicode → EventCandidate → GateContext → Type 0
NoReason u c ctx = (r : RejectionCode) → ¬ Reason u c ctx r

module _ (u : Unicode) (c : EventCandidate) (ctx : GateContext) where
  decide_rest-accept_iff :
      (cs : List RejectionCode)
      → (decide_rest u c ctx cs ≡ accept)
        ↔ ((cs ≡ []) × (¬ IsUnknown c.time) × (c.subject_entity_id ≢ none))
  unfolding is_unknown
  decide_rest-accept_iff [] = ground arith
  decide_rest-accept_iff (r ∷ cs) = ground arith

  decide_rest-review_iff :
      (cs : List RejectionCode)
      → (decide_rest u c ctx cs ≡ review)
        ↔ ((cs ≡ []) × (IsUnknown c.time ⊎ (c.subject_entity_id ≡ none)))
  unfolding is_unknown
  decide_rest-review_iff [] = ground arith
  decide_rest-review_iff (r ∷ cs) = ground arith

  decide_rest-reject :
      (cs : List RejectionCode) {ds : List RejectionCode}
      → decide_rest u c ctx cs ≡ reject ds
      → (ds ≡ cs) × (ds ≢ [])
  decide_rest-reject [] h = ground arith
  decide_rest-reject (r ∷ cs) h = ground arith

  kept_codes : List RejectionCode
  kept_codes = retain_first [] (all_gates u c ctx)

  reports-kept : (r : RejectionCode) → reports (apply_gates u c ctx) r ≡ contains_code kept_codes r
  unfolding apply_gates kept_codes
  reports-kept r = elim (List-cases kept_codes) [
    | inl e ↦ rw e (unfold contains_code in ground arith)
    | inr (d, ds, e) ↦ rw e
  ]

  nil-NoReason : kept_codes ≡ [] → NoReason u c ctx
  unfolding contains_code
  nil-NoReason e r reason = cc (
    (apply_gates-reports_iff u c ctx r).1 reason,
    reports-kept r,
    ap (λ cs. contains_code cs r) e,
  )

  NoReason-nil : NoReason u c ctx → kept_codes ≡ []
  NoReason-nil none_holds = only_nil kept_codes λ r.
      elim (Bool-cases (contains_code kept_codes r)) [
        | inl there ↦
            absurd (none_holds r ((apply_gates-reports_iff u c ctx r).0 (reports-kept r ∙ there)))
        | inr absent ↦ absent
      ]

  -- A candidate is accepted exactly when no code has a reason (as above), its time is known and its
  -- subject is resolved.
  pub apply_gates-accept_iff :
      (apply_gates u c ctx ≡ accept)
      ↔ (NoReason u c ctx × (¬ IsUnknown c.time) × (c.subject_entity_id ≢ none))
  unfolding apply_gates kept_codes
  apply_gates-accept_iff = (
    λ e.
        let (empty, timed, resolved) = (decide_rest-accept_iff kept_codes).0 e in
        (nil-NoReason empty, timed, resolved),
    λ h. (decide_rest-accept_iff kept_codes).1 (NoReason-nil h.0, h.1, h.2),
  )

  -- It is left for review exactly when no code has a reason, and its time is unknown or its subject
  -- is not resolved.
  pub apply_gates-review_iff :
      (apply_gates u c ctx ≡ review)
      ↔ (NoReason u c ctx × (IsUnknown c.time ⊎ (c.subject_entity_id ≡ none)))
  unfolding apply_gates kept_codes
  apply_gates-review_iff = (
    λ e.
        let (empty, open_point) = (decide_rest-review_iff kept_codes).0 e in
        (nil-NoReason empty, open_point),
    λ h. (decide_rest-review_iff kept_codes).1 (NoReason-nil h.0, h.1),
  )

  -- A rejection has at least one code, and no code twice.
  pub apply_gates-Distinct :
      {ds : List RejectionCode} → apply_gates u c ctx ≡ reject ds → Distinct ds × (ds ≢ [])
  unfolding apply_gates kept_codes
  apply_gates-Distinct {ds} e =
      let (same, some_code) = decide_rest-reject kept_codes e in
      (rw same (unfold kept_codes in retain_first-Distinct [] (all_gates u c ctx)), some_code)
