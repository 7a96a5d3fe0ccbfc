-- ===== src/Interactions/Tests.antt =====
-- A run on the epistemic stances.
use talaria_v.Base.{◌≡◌, refl, true}
use talaria_v.Interactions.{support, is_epistemic_stance}

is_stance : is_epistemic_stance support ≡ true
unfolding is_epistemic_stance
is_stance = refl
