-- ===== src/Budgets/Tests.antt =====
-- Tests and witnesses on budgets.
use talaria_v.Base.{◌≤◌, ◌≡◌, refl, ◌↔◌, [], ◌∷◌, none, some, arith}
use talaria_v.Text.{Text, codes, text_eq}
use talaria_v.Budgets.{default, no_counts, record_document, download_bytes}
use talaria_v.Budgets.Exact.{call, document, run, run-none_iff, calls, bytes_of, documents}

too_large_test :
    (record_document no_counts (codes "wikipedia") default 52428801).1 ≡ some download_bytes
unfolding record_document codes text_eq
too_large_test = refl

run-none_iff_example :
    ((run default no_counts (call ∷ document (codes "wikipedia") 5 ∷ [])).1 ≡ none) ↔ (
      (calls (call ∷ document (codes "wikipedia") 5 ∷ []) ≤ 200)
      × (bytes_of (call ∷ document (codes "wikipedia") 5 ∷ []) ≤ 52428800)
      × ((source : Text) → documents source (call ∷ document (codes "wikipedia") 5 ∷ []) ≤ 40))
run-none_iff_example =
    run-none_iff default (omega arith, omega arith) (call ∷ document (codes "wikipedia") 5 ∷ [])
      (tt, (omega arith, tt))
