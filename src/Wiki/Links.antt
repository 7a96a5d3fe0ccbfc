-- ===== src/Wiki/Links.antt =====
-- The links of a wikitext: `extract_wikilinks` of crates/talaria-text/src/infobox.rs.
use talaria_v.Base.{
  ℕ, zero, suc, Bool, ◌||◌, List, [], ◌∷◌, Option, none, some, ◌==◌, if◌then◌else◌, is_empty,
  length, unwrap_or,
}
use talaria_v.Text.{Text, codes, trim}
use talaria_v.Text.Find.{find_split}
use talaria_v.Text.Unicode.{Unicode}
use talaria_v.PlaceQuality.{starts_with_any}

pub record WikiLink : Type 0 where
  pub target : Text
  pub display : Text

-- `s.splitn(2, sep)`: the first piece, and the rest if there is a separator.
unfoldable pub split_once : ℕ → Text → Text × Option Text
split_once sep [] = ([], none)
split_once sep (c ∷ s) =
    let rest = split_once sep s in if c == sep then ([], some s) else (c ∷ rest.0, rest.1)

unfoldable pub is_excluded : Unicode → Text → Bool
unfolding starts_with_any
is_excluded u inner =
    starts_with_any (u.to_lowercase inner)
      ("file:" ∷ "image:" ∷ "category:" ∷ "catégorie:" ∷ "categorie:" ∷ [])

unfoldable pub link_of : Text → WikiLink
unfolding split_once trim
link_of inner =
    let parts = split_once b'|' inner in
    let target = trim parts.0 in
    record { target = target; display = trim (unwrap_or parts.1 target) }

-- The link between the brackets, unless it is empty or leads to a file or a category.
unfoldable pub wikilink : Unicode → Text → Option WikiLink
unfolding is_excluded link_of trim
wikilink u between =
    let inner = trim between in
    if is_empty inner || is_excluded u inner || is_empty (link_of inner).target
    then none
    else some (link_of inner)

abbrev pub onto {ℓ} : {A : Type ℓ} → Option A → List A → List A
onto none xs = xs
onto (some x) xs = x ∷ xs

unfoldable pub wikilinks_from : Unicode → ℕ → Text → List WikiLink
unfolding find_split codes wikilink
wikilinks_from u zero rest = []
wikilinks_from u (suc fuel) rest = elim (find_split (codes "[[") rest) [
  | none ↦ []
  | some (before, after) ↦ elim (find_split (codes "]]") after) [
    | none ↦ []
    | some (between, behind) ↦ onto (wikilink u between) (wikilinks_from u fuel behind)
  ]
]

unfoldable pub extract_wikilinks : Unicode → Text → List WikiLink
unfolding wikilinks_from
extract_wikilinks u wikitext = wikilinks_from u (length wikitext) wikitext
