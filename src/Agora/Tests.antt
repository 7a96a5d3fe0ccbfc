-- ===== src/Agora/Tests.antt =====
-- Tests on stances.
use talaria_v.Base.{◌≡◌, refl, ◌↔◌, ◌==◌, true, false, none, some}
use talaria_v.Text.{codes}
use talaria_v.Agora.{
  parse_stance, dispute, parse_target, claim, stance_block, modeled_pending, is_stance_claim,
  is_published, is_modeled, has_term, ready,
}
use talaria_v.Agora.Ready.{stance_block-ready_iff}

parse_stance_test : parse_stance (codes " Against ") ≡ some dispute
unfolding parse_stance codes
parse_stance_test = refl

parse_target_test : parse_target (codes "Theory") ≡ some claim
unfolding parse_target codes
parse_target_test = refl

unpublished_test : stance_block (codes "theory") none none 1 true ≡ some modeled_pending
unfolding stance_block is_stance_claim is_published is_modeled codes
unpublished_test = refl

stance_block-ready_iff_example :
    (stance_block (codes "theory") (some (codes "published")) (some (codes "0x1")) 5 true
      ≡ some ready)
    ↔ ((is_stance_claim (codes "theory") ≡ true)
        × (is_published (some (codes "published")) ≡ true)
        × (has_term (some (codes "0x1")) ≡ true)
        × ((5 == 0) ≡ false)
        × (true ≡ true))
stance_block-ready_iff_example =
    stance_block-ready_iff (codes "theory") (some (codes "published")) (some (codes "0x1")) 5 true
