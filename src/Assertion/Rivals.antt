-- ===== src/Assertion/Rivals.antt =====
-- When the places of one occurrence compete.
use talaria_v.Base.{
  ◌≡◌, ◌≢◌, ◌↔◌, true, false, not, List, [], ◌∷◌, Option, is_empty, is_some, arith, Any,
}
use talaria_v.Text.{Text}
use talaria_v.Text.Equality.{text_eq_iff}
use talaria_v.Text.Unicode.{Unicode}
use talaria_v.Assertion.{place_key, rivals, competing_places}

module _ (u : Unicode) where
  -- The place is given, and it is another one than the key.
  abbrev pub IsRival : Text → Option Text → Type 0
  IsRival key p = (place_key u p ≢ []) × (place_key u p ≢ key)

  empty_iff : (s : Text) → (not (is_empty s) ≡ true) ↔ (s ≢ [])
  empty_iff [] = ground arith
  empty_iff (c ∷ s) = ground arith

  rivals-nonempty_iff :
      (key : Text) (existing : List (Option Text))
      → (is_empty (rivals u key existing) ≡ false) ↔ Any (IsRival key) existing
  unfolding rivals
  rivals-nonempty_iff key [] = ground arith
  rivals-nonempty_iff key (p ∷ ps) = ground (
    arith,
    rivals-nonempty_iff key ps,
    empty_iff (place_key u p),
    text_eq_iff (place_key u p) key,
  )

  -- Places compete exactly when the incoming one is given and some existing one is given and another,
  -- up to white space and case; an absent place never competes.
  pub competing_places-some_iff :
      (incoming : Option Text) (existing : List (Option Text))
      → (is_some (competing_places u incoming existing) ≡ true)
        ↔ ((place_key u incoming ≢ []) × Any (IsRival (place_key u incoming)) existing)
  unfolding competing_places
  competing_places-some_iff incoming existing =
      let some_rival = rivals-nonempty_iff (place_key u incoming) existing in
      let given = empty_iff (place_key u incoming) in ground (arith, some_rival, given)
