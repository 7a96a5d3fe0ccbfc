-- ===== src/Agora.antt =====
-- Stances on claims: crates/talaria-api/src/agora_stance.rs. The shares are a `u128`.
pub mod Ready
mod Tests
use talaria_v.Base.{
  ℕ, Bool, true, false, not, ◌&&◌, List, [], ◌∷◌, Option, none, some, ◌==◌, if◌then◌else◌, is_empty,
}
use talaria_v.Text.{Text, codes, is, is_one_of, trim, to_ascii_lowercase}

pub data StanceKind : Type 0 where
  believe dispute : StanceKind

pub data StanceBlock : Type 0 where
  not_theory not_on_chain modeled_pending live_disabled ready min_shares_forbidden : StanceBlock

pub data StanceTargetKind : Type 0 where
  person event claim source : StanceTargetKind

-- `raw.trim().to_ascii_lowercase()`
unfoldable pub folded : Text → Text
unfolding trim to_ascii_lowercase
folded raw = to_ascii_lowercase (trim raw)

-- `StanceTargetKind::parse`
unfoldable pub parse_target : Text → Option StanceTargetKind
unfolding folded is_one_of is
parse_target raw =
    let s = folded raw in
    if is_one_of s ("person" ∷ "entity" ∷ [])
    then some person
    else if is s "event"
    then some event
    else if is_one_of s ("claim" ∷ "theory" ∷ "controversy" ∷ "interpretation" ∷ [])
    then some claim
    else if is_one_of s ("source" ∷ "document" ∷ "evidence" ∷ [])
    then some source
    else none

-- `StanceTargetKind::as_str`
unfoldable pub target_as_str : StanceTargetKind → Text
unfolding codes
target_as_str person = codes "person"
target_as_str event = codes "event"
target_as_str claim = codes "claim"
target_as_str source = codes "source"

-- `StanceKind::parse`
unfoldable pub parse_stance : Text → Option StanceKind
unfolding folded is_one_of
parse_stance raw =
    let s = folded raw in
    if is_one_of s ("believe" ∷ "for" ∷ "yes" ∷ [])
    then some believe
    else if is_one_of s ("dispute" ∷ "against" ∷ "no" ∷ [])
    then some dispute
    else none

unfoldable pub vault_role : StanceKind → Text
unfolding codes
vault_role believe = codes "triple"
vault_role dispute = codes "counter_triple"

unfoldable pub is_stance_claim : Text → Bool
unfolding folded is_one_of
is_stance_claim claim_kind =
    is_one_of (folded claim_kind) ("theory" ∷ "controversy" ∷ "debate_stance" ∷ [])

-- `eq_ignore_ascii_case("theory")`
unfoldable pub is_agora_theory : Text → Bool
unfolding folded is
is_agora_theory claim_kind = is (folded claim_kind) "theory"

unfoldable pub is_modeled_status : Text → Bool
unfolding folded is_one_of
is_modeled_status status =
    is_one_of (folded status) ("pending" ∷ "planned" ∷ "modeled" ∷ "exported" ∷ [])

-- `publication_status == Some("published")`
unfoldable pub is_published : Option Text → Bool
unfolding is
is_published none = false
is_published (some status) = is status "published"

-- `triple_term_id.map(|id| !id.trim().is_empty()).unwrap_or(false)`
unfoldable pub has_term : Option Text → Bool
unfolding trim
has_term none = false
has_term (some id) = not (is_empty (trim id))

-- `publication_status.map(is_modeled_status).unwrap_or(true)`
unfoldable pub is_modeled : Option Text → Bool
unfolding is_modeled_status
is_modeled none = true
is_modeled (some status) = is_modeled_status status

-- The answer is never `None`.
unfoldable pub stance_block : Text → Option Text → Option Text → ℕ → Bool → Option StanceBlock
stance_block claim_kind publication_status triple_term_id min_shares live_allowed =
    if not (is_stance_claim claim_kind)
    then some not_theory
    else if not (is_published publication_status && has_term triple_term_id)
    then (if is_modeled publication_status then some modeled_pending else some not_on_chain)
    else if min_shares == 0
    then some min_shares_forbidden
    else if live_allowed
    then some ready
    else some live_disabled

unfoldable pub modeled_target_block : ℕ → StanceBlock
modeled_target_block min_shares = if min_shares == 0 then min_shares_forbidden else modeled_pending
