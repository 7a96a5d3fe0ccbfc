-- ===== src/Attribution/Judging.antt =====
-- The judgement of an item: the gates and the attribution together.
use talaria_v.Base.{
  ◌≡◌, refl, ◌↔◌, ◌⊎◌, Bool, true, false, ◌||◌, List, [], ◌∷◌, arith, if◌then◌else◌, not, ◌&&◌,
  subst, sym, none, ◌≢◌, any, Any,
}
use talaria_v.Text.Unicode.{Unicode}
use talaria_v.Gates.Candidate.{EventCandidate}
use talaria_v.Gates.Codes.{
  RejectionCode, GateDecision, accept, review, reject, contains_code, subject_not_attributed,
}
use talaria_v.Gates.Codes.Laws.{contains_code-append, same_code_iff}
use talaria_v.Gates.{GateContext, apply_gates}
use talaria_v.Gates.Reasons.{reports, Reason, apply_gates-reports_iff}
use talaria_v.Gates.Acceptance.{NoReason, IsUnknown, apply_gates-accept_iff}
use talaria_v.Attribution.{
  AttributionMatch, direct_name_match, alias_match, title_subject_match,
  structured_participant_match, followed_military_action, coreference_match, unattributed,
  auto_accept_attribution, attribution_gate_decision, AttributionInput, classify_attribution,
  is_military_action_type, titles_equal, contains_folded, starts_with_coreference,
}
use talaria_v.Attribution.Ingest.{merge_gate_and_attribution, judge_item}

any_iff : {A : Type 0} (p : A → Bool) (xs : List A) → (any p xs ≡ true) ↔ Any (λ a. p a ≡ true) xs
any_iff p [] = ground arith
any_iff p (x ∷ xs) = ground (arith, any_iff p xs)

merge-accept_iff :
    (d : GateDecision) (m : AttributionMatch)
    → (merge_gate_and_attribution d m ≡ accept)
      ↔ ((d ≡ accept) × (auto_accept_attribution m ≡ true))
unfolding merge_gate_and_attribution attribution_gate_decision auto_accept_attribution
merge-accept_iff d m = ground arith

-- The codes of the two decisions are joined.
merge-reports :
    (d : GateDecision) (m : AttributionMatch) (r : RejectionCode)
    → reports (merge_gate_and_attribution d m) r
      ≡ (reports d r || reports (attribution_gate_decision m) r)
unfolding merge_gate_and_attribution attribution_gate_decision
merge-reports accept m r = refl
merge-reports review m r = ground arith
merge-reports (reject cs) unattributed r =
    ground (arith, contains_code-append cs (subject_not_attributed ∷ []) r)
merge-reports (reject cs) m r = ground arith

attribution-reports_iff :
    (m : AttributionMatch) (r : RejectionCode)
    → (reports (attribution_gate_decision m) r ≡ true)
      ↔ ((m ≡ unattributed) × (r ≡ subject_not_attributed))
unfolding attribution_gate_decision contains_code
attribution-reports_iff m r = ground (arith, same_code_iff subject_not_attributed r)

-- The chain of tests of `classify_attribution`, over their results.
abbrev chain : Bool → Bool → Bool → Bool → Bool → Bool → Bool → Bool → Bool → AttributionMatch
chain s mil f typ t n a r k =
    if s
    then structured_participant_match
    else if mil && f && typ
    then followed_military_action
    else if not f
    then title_subject_match
    else if t
    then title_subject_match
    else if n || a
    then (if not r then unattributed else if n then direct_name_match else alias_match)
    else if k
    then coreference_match
    else unattributed

chain-auto_accept :
    (s mil f typ t n a r k : Bool)
    → auto_accept_attribution (chain s mil f typ t n a r k)
      ≡ (s || mil && typ || not f || t || (n || a) && r)
unfolding auto_accept_attribution
chain-auto_accept true mil f typ t n a r k = refl
chain-auto_accept false mil false typ t n a r k = ground arith
chain-auto_accept false true true true t n a r k = refl
chain-auto_accept false true true false t n a r k = ground arith
chain-auto_accept false false true typ t n a r k = ground arith

cases_iff :
    (s mil f typ t n a r : Bool) {A : Type 0}
    → (a ≡ true) ↔ A
    → ((s || mil && typ || not f || t || (n || a) && r) ≡ true) ↔ (
        (s ≡ true)
        ⊎ ((mil ≡ true) × (typ ≡ true))
        ⊎ (f ≡ false)
        ⊎ (t ≡ true)
        ⊎ (((n ≡ true) ⊎ A) × (r ≡ true)))
cases_iff true mil f typ t n a r h = ground arith
cases_iff false true f true t n a r h = ground arith
cases_iff false mil f typ t n a r h = ground arith

module _ (u : Unicode) where
  -- An item is accepted exactly when no gate has a reason against it, its time is known, its subject
  -- is resolved, and its attribution is one of those accepted without review.
  pub judge_item-accept_iff :
      (c : EventCandidate) (ctx : GateContext) (m : AttributionMatch)
      → (judge_item u c ctx m ≡ accept) ↔ (
          (NoReason u c ctx × (¬ IsUnknown c.time) × (c.subject_entity_id ≢ none))
          × (auto_accept_attribution m ≡ true))
  unfolding judge_item
  judge_item-accept_iff c ctx m =
      let gates = apply_gates-accept_iff u c ctx in
      let merged = merge-accept_iff (apply_gates u c ctx) m in
      (λ e. (gates.0 (merged.0 e).0, (merged.0 e).1), λ h. merged.1 (gates.1 h.0, h.1))

  -- The judgement reports a code exactly when a gate has a reason for it, or it is
  -- `subject_not_attributed` and the item is not attributed.
  pub judge_item-reports_iff :
      (c : EventCandidate) (ctx : GateContext) (m : AttributionMatch) (r : RejectionCode)
      → (reports (judge_item u c ctx m) r ≡ true)
        ↔ (Reason u c ctx r ⊎ ((m ≡ unattributed) × (r ≡ subject_not_attributed)))
  unfolding judge_item
  judge_item-reports_iff c ctx m r =
      let gates = apply_gates-reports_iff u c ctx r in
      let attributed = attribution-reports_iff m r in
      let merged = merge-reports (apply_gates u c ctx) m r in
      ground (arith, gates, attributed, merged)

  -- What ties an event to the subject.
  abbrev pub Attributed : AttributionInput → Type 0
  Attributed i =
      (i.structured_source ≡ true)
      ⊎ ((i.military_subject ≡ true) × (is_military_action_type i.event_type ≡ true))
      ⊎ (i.from_followed_page ≡ false)
      ⊎ (titles_equal u i.page_title i.subject ≡ true)
      ⊎ (((contains_folded u i.quote i.subject ≡ true)
            ⊎ Any (λ a. contains_folded u i.quote a ≡ true) i.aliases)
          × (i.role_supported_by_evidence ≡ true))

  -- An event is accepted for the subject exactly when its source is structured, or a military
  -- subject's action is told, or the page is the subject's own or no followed one, or the quote names
  -- the subject or an alias and the role is supported.
  pub classify_attribution-auto_accept_iff :
      (i : AttributionInput)
      → (auto_accept_attribution (classify_attribution u i) ≡ true) ↔ Attributed i
  unfolding classify_attribution auto_accept_attribution
  classify_attribution-auto_accept_iff i =
      subst (λ b. (b ≡ true) ↔ Attributed i)
        (sym (
          chain-auto_accept i.structured_source i.military_subject i.from_followed_page
            (is_military_action_type i.event_type) (titles_equal u i.page_title i.subject)
            (contains_folded u i.quote i.subject) (any (contains_folded u i.quote) i.aliases)
            i.role_supported_by_evidence (starts_with_coreference u i.quote)))
        (cases_iff i.structured_source i.military_subject i.from_followed_page
          (is_military_action_type i.event_type) (titles_equal u i.page_title i.subject)
          (contains_folded u i.quote i.subject) (any (contains_folded u i.quote) i.aliases)
          i.role_supported_by_evidence (any_iff (contains_folded u i.quote) i.aliases))
