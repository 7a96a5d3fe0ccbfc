-- ===== src/ContextYear/Tests.antt =====
-- Inferred years, and the theorems at a concrete input.
use talaria_v.Base.{◌≡◌, refl, [], ◌∷◌, none, some, pos, arith, wrap32}
use talaria_v.Text.{Text, codes}
use talaria_v.ContextYear.{scan_years_in_range, infer_approximate_year, latest}
use talaria_v.ContextYear.Window.{local_context_window}
use talaria_v.ContextYear.Bounds.{Within}
use talaria_v.ContextYear.Inference.{infer_approximate_year-Within}

abbrev heading : Text
heading = codes "### 1867 and 1864-1866 (1864), p. 12345"

scanned : scan_years_in_range heading (pos 1800) (pos 1885) ≡ pos 1864 ∷ pos 1866 ∷ pos 1867 ∷ []
unfolding scan_years_in_range codes
scanned = refl

guessed :
    infer_approximate_year
      (codes "exile")
      []
      none
      (some (codes "1864-1867"))
      (some (pos 1802))
      (some (pos 1885))
    ≡ some (pos 1865, codes "section_heading")
unfolding infer_approximate_year codes wrap32
guessed = refl

-- The window is cut at character boundaries: the two bytes of é stay together.
window : local_context_window (codes "ééabcéé") (codes " b ") 2 ≡ codes "éabcé"
unfolding local_context_window codes
window = refl

infer_approximate_year-Within_example : Within (pos 1802) (latest (some (pos 1885))) (pos 1865)
infer_approximate_year-Within_example =
    infer_approximate_year-Within (some (pos 1802)) (some (pos 1885)) (omega arith, omega arith)
      (omega arith, omega arith) (omega arith) (codes "exile") [] none (some (codes "1864-1867"))
      (pos 1865) (codes "section_heading") guessed
