-- ===== src/Assertion/Tests.antt =====
-- Competing places, and the theorem at a concrete input.
use talaria_v.Base.{◌≡◌, refl, ◌≢◌, ◌↔◌, true, List, [], ◌∷◌, Option, none, some, is_some, Any}
use talaria_v.Text.{Text, codes, to_ascii_lowercase}
use talaria_v.Text.Sample.{ascii_tables}
use talaria_v.Assertion.{place_key, competing_places}
use talaria_v.Assertion.Rivals.{IsRival, competing_places-some_iff}

abbrev readings : List (Option Text)
readings = some (codes " paris") ∷ none ∷ some (codes "Lyon") ∷ some (codes "LYON") ∷ []

lyon_and_paris :
    competing_places ascii_tables (some (codes "Paris")) readings
    ≡ some (codes "lyon" ∷ codes "paris" ∷ [])
unfolding competing_places codes to_ascii_lowercase
lyon_and_paris = refl

competing_places-some_iff_example :
    (is_some (competing_places ascii_tables (some (codes "Paris")) readings) ≡ true) ↔ (
      (place_key ascii_tables (some (codes "Paris")) ≢ [])
      × Any (IsRival ascii_tables (place_key ascii_tables (some (codes "Paris")))) readings)
competing_places-some_iff_example =
    competing_places-some_iff ascii_tables (some (codes "Paris")) readings
