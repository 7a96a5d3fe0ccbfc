-- ===== src/Interactions.antt =====
-- The vocabulary of interactions: crates/talaria-store/src/interaction_types.rs. The parsers, which the
-- crate serde derives, are not modelled.
pub mod Matrix
mod Tests
use talaria_v.Base.{ℕ, Bool, true, false, not, List, [], ◌∷◌, ◌==◌, any}
use talaria_v.Text.{Text, codes}

pub data InteractionAction : Type 0 where
  interest follow save support dispute uncertain : InteractionAction
  useful credible not_credible want_to_visit visited recommend : InteractionAction

pub data InteractionTargetType : Type 0 where
  person claim source place event route : InteractionTargetType

pub data InteractionVisibility : Type 0 where
  private_to_user open_to_all : InteractionVisibility

-- `InteractionAction::as_str`
unfoldable pub action_as_str : InteractionAction → Text
unfolding codes
action_as_str interest = codes "interest"
action_as_str follow = codes "follow"
action_as_str save = codes "save"
action_as_str support = codes "support"
action_as_str dispute = codes "dispute"
action_as_str uncertain = codes "uncertain"
action_as_str useful = codes "useful"
action_as_str credible = codes "credible"
action_as_str not_credible = codes "not_credible"
action_as_str want_to_visit = codes "want_to_visit"
action_as_str visited = codes "visited"
action_as_str recommend = codes "recommend"

unfoldable pub is_epistemic_stance : InteractionAction → Bool
is_epistemic_stance support = true
is_epistemic_stance dispute = true
is_epistemic_stance uncertain = true
is_epistemic_stance _ = false

-- `InteractionTargetType::as_str`
unfoldable pub target_as_str : InteractionTargetType → Text
unfolding codes
target_as_str person = codes "person"
target_as_str claim = codes "claim"
target_as_str source = codes "source"
target_as_str place = codes "place"
target_as_str event = codes "event"
target_as_str route = codes "route"

unfoldable pub is_supported : InteractionTargetType → Bool
is_supported route = false
is_supported _ = true

-- `InteractionVisibility::as_str`
unfoldable pub visibility_as_str : InteractionVisibility → Text
unfolding codes
visibility_as_str private_to_user = codes "private"
visibility_as_str open_to_all = codes "public"

unfoldable pub default_visibility : InteractionAction → InteractionVisibility
default_visibility save = private_to_user
default_visibility follow = private_to_user
default_visibility interest = private_to_user
default_visibility visited = private_to_user
default_visibility want_to_visit = private_to_user
default_visibility support = open_to_all
default_visibility dispute = open_to_all
default_visibility uncertain = open_to_all
default_visibility useful = open_to_all
default_visibility credible = open_to_all
default_visibility not_credible = open_to_all
default_visibility recommend = open_to_all

unfoldable pub allowed_actions : InteractionTargetType → List InteractionAction
allowed_actions person = interest ∷ follow ∷ save ∷ []
allowed_actions claim = support ∷ dispute ∷ uncertain ∷ save ∷ []
allowed_actions source = useful ∷ credible ∷ not_credible ∷ save ∷ []
allowed_actions place = save ∷ want_to_visit ∷ visited ∷ []
allowed_actions event = save ∷ []
allowed_actions route = []

-- Equality of actions is that of their discriminants.
abbrev action_number : InteractionAction → ℕ
action_number interest = 0
action_number follow = 1
action_number save = 2
action_number support = 3
action_number dispute = 4
action_number uncertain = 5
action_number useful = 6
action_number credible = 7
action_number not_credible = 8
action_number want_to_visit = 9
action_number visited = 10
action_number recommend = 11

unfoldable pub is_allowed : InteractionAction → InteractionTargetType → Bool
unfolding allowed_actions
is_allowed action target =
    any (λ a. action_number a == action_number action) (allowed_actions target)
