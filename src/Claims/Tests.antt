-- ===== src/Claims/Tests.antt =====
-- A run of the classification of claims.
use talaria_v.Base.{◌≡◌, refl}
use talaria_v.Text.{Text, codes}
use talaria_v.Claims.{classify_claim_text}

abbrev text : Text
text = codes "Hugo was born in 1802."

classified : (classify_claim_text text).kind ≡ codes "life_event"
unfolding classify_claim_text codes
classified = refl
