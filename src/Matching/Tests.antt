-- ===== src/Matching/Tests.antt =====
-- Tests on the names of a subject.
use talaria_v.Base.{◌≡◌, refl, [], ◌∷◌, some}
use talaria_v.Text.{codes}
use talaria_v.Matching.{subject_match_aliases, text_mentions_alias, fold}

fold_test : fold (codes "Françoise d'Été") ≡ codes "francoise d'ete"
unfolding fold codes
fold_test = refl

aliases_test :
    subject_match_aliases (codes "Michel Lannes")
    ≡ codes "Lannes" ∷ codes "Lannes, Michel" ∷ codes "Michel Lannes" ∷ []
unfolding subject_match_aliases codes
aliases_test = refl

mention_test :
    text_mentions_alias (codes "Le maréchal Lannes") (codes "Michel Lannes" ∷ [])
    ≡ some (codes "surname Lannes")
unfolding text_mentions_alias codes
mention_test = refl
