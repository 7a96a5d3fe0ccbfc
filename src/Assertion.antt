-- ===== src/Assertion.antt =====
-- Competing readings of one occurrence: `competing_places` of
-- crates/talaria-quality/src/assertion.rs. Its `occurrence_stem_for_event` stands in Identity.
pub mod Rivals
pub mod Order
mod Tests
use talaria_v.Base.{
  Bool, true, false, not, ◌&&◌, List, [], ◌∷◌, ◌++◌, Option, none, some, map, keep, if◌then◌else◌,
  is_empty, unwrap_or,
}
use talaria_v.Base.Sort.{sort_by}
use talaria_v.Text.{Text, text_eq}
use talaria_v.Text.Unicode.{Unicode}
use talaria_v.Identity.{normalize_surface, text_le}

-- `rivals.dedup()`
unfoldable pub dedup_texts : List Text → List Text
unfolding text_eq
dedup_texts [] = []
dedup_texts (s ∷ []) = s ∷ []
dedup_texts (s ∷ t ∷ ts) = let rest = dedup_texts (t ∷ ts) in if text_eq s t then rest else s ∷ rest

module _ (u : Unicode) where
  abbrev pub place_key : Option Text → Text
  place_key p = normalize_surface u (unwrap_or p [])

  -- The other places, that are given and not the incoming one.
  unfoldable pub rivals : Text → List (Option Text) → List Text
  unfolding normalize_surface text_eq
  rivals incoming existing =
      keep (λ n. not (is_empty n) && not (text_eq n incoming)) (map place_key existing)

  unfoldable pub competing_places : Option Text → List (Option Text) → Option (List Text)
  unfolding normalize_surface rivals sort_by text_le dedup_texts
  competing_places incoming existing =
      let key = place_key incoming in
      if is_empty key
      then none
      else if is_empty (rivals key existing)
      then none
      else some (dedup_texts (sort_by text_le (rivals key existing ++ key ∷ [])))
