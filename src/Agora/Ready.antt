-- ===== src/Agora/Ready.antt =====
-- When a stance may be deposited.
use talaria_v.Base.{
  ℕ, ◌≡◌, refl, ◌↔◌, Bool, true, false, not, ◌&&◌, Option, some, ◌==◌, if◌then◌else◌,
}
use talaria_v.Text.{Text}
use talaria_v.Agora.{
  StanceBlock, ready, live_disabled, min_shares_forbidden, modeled_pending, not_on_chain,
  not_theory, is_stance_claim, is_published, has_term, is_modeled, stance_block,
}

-- The tests of a stance: eligible, published, with a term, modelled, no shares, live.
abbrev answer : Bool → Bool → Bool → Bool → Bool → Bool → Option StanceBlock
answer e p t m z l =
    if not e
    then some not_theory
    else if not (p && t)
    then (if m then some modeled_pending else some not_on_chain)
    else if z
    then some min_shares_forbidden
    else if l
    then some ready
    else some live_disabled

answer-ready :
    (e p t m z l : Bool)
    → (answer e p t m z l ≡ some ready)
      ↔ ((e ≡ true) × (p ≡ true) × (t ≡ true) × (z ≡ false) × (l ≡ true))
answer-ready true true true m false true = (λ h. (refl, refl, refl, refl, refl), λ f. refl)
answer-ready false p t m z l = (λ h. absurd (cc h), λ f. absurd (cc (f.0)))
answer-ready true false t true z l = (λ h. absurd (cc h), λ f. absurd (cc (f.1)))
answer-ready true false t false z l = (λ h. absurd (cc h), λ f. absurd (cc (f.1)))
answer-ready true true false true z l = (λ h. absurd (cc h), λ f. absurd (cc (f.2)))
answer-ready true true false false z l = (λ h. absurd (cc h), λ f. absurd (cc (f.2)))
answer-ready true true true m true l = (λ h. absurd (cc h), λ f. absurd (cc (f.3)))
answer-ready true true true m false false = (λ h. absurd (cc h), λ f. absurd (cc (f.4)))

-- A stance may be deposited exactly when the claim is of an eligible kind, published with a term that
-- is not blank, the least shares are not zero, and live deposits are allowed.
pub stance_block-ready_iff :
    (claim_kind : Text) (publication_status triple_term_id : Option Text) (min_shares : ℕ)
    (live_allowed : Bool)
    → (stance_block claim_kind publication_status triple_term_id min_shares live_allowed
        ≡ some ready)
      ↔ ((is_stance_claim claim_kind ≡ true)
          × (is_published publication_status ≡ true)
          × (has_term triple_term_id ≡ true)
          × ((min_shares == 0) ≡ false)
          × (live_allowed ≡ true))
unfolding stance_block
stance_block-ready_iff claim_kind publication_status triple_term_id min_shares live_allowed =
    answer-ready (is_stance_claim claim_kind) (is_published publication_status)
      (has_term triple_term_id) (is_modeled publication_status) (min_shares == 0) live_allowed
