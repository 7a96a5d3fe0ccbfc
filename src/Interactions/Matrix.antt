-- ===== src/Interactions/Matrix.antt =====
-- What the matrix of allowed interactions amounts to.
use talaria_v.Base.{◌≡◌, ◌≢◌, ◌↔◌, true, arith}
use talaria_v.Interactions.{
  InteractionAction, save, recommend, InteractionTargetType, claim, is_allowed, is_supported,
  is_epistemic_stance, default_visibility, open_to_all,
}

-- A stance can be taken on claims alone, and is public by default.
pub is_allowed-stance_iff :
    (action : InteractionAction) (target : InteractionTargetType)
    → is_epistemic_stance action ≡ true
    → ((is_allowed action target ≡ true) ↔ (target ≡ claim))
      × (default_visibility action ≡ open_to_all)
unfolding is_allowed is_epistemic_stance default_visibility
is_allowed-stance_iff action target stance = ground arith

-- Saving is allowed on exactly the supported targets, and no target that is not supported allows any
-- action; recommending is allowed nowhere.
pub is_allowed-is_supported :
    (action : InteractionAction) (target : InteractionTargetType)
    → ((is_allowed save target ≡ true) ↔ (is_supported target ≡ true))
      × (is_allowed action target ≡ true → is_supported target ≡ true)
      × (is_allowed recommend target ≢ true)
unfolding is_allowed is_supported
is_allowed-is_supported action target = ground arith
