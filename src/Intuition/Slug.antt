-- ===== src/Intuition/Slug.antt =====
-- Slugs of atoms: the first part of crates/talaria-intuition/src/canon.rs. The transliteration of the
-- crate deunicode is the record `Transliteration`.
pub mod Shape
pub mod RoundTrip
use talaria_v.Base.{
  ℕ, ◌<◌, ◌≡◌, Bool, true, false, List, [], ◌∷◌, ◌++◌, Option, none, some, ◌==◌, if◌then◌else◌,
  is_empty, All,
}
use talaria_v.Text.{
  Text, codes, is_one_of, is_ascii_alphanumeric, trim_start_matches, trim_end_matches,
}
use talaria_v.Text.Unicode.{Unicode}

-- `deunicode`: the result is ASCII, and ASCII is left as it is.
pub record Transliteration : Type 0 where
  pub deunicode : Text → Text
  pub deunicode_is_ascii : (s : Text) → All (λ c. c < 128) (deunicode s)
  pub deunicode_ascii : (s : Text) → All (λ c. c < 128) s → deunicode s ≡ s

pub data CanonError : Type 0 where
  invalid_kind invalid_slug : Text → CanonError

pub data Canon (A : Type 0) : Type 0 where
  ok : A → Canon A
  err : CanonError → Canon A

infixl 5 ◌>>=◌
abbrev pub ◌>>=◌ : {A B : Type 0} → Canon A → (A → Canon B) → Canon B
ok a >>= f = f a
err e >>= f = err e

-- The loop over the characters: `prev_hyphen` tells that the last one pushed is a hyphen.
unfoldable pub squash : Bool → Text → Text
unfolding is_ascii_alphanumeric
squash prev_hyphen [] = []
squash prev_hyphen (c ∷ s) =
    let kept = c ∷ squash false s in
    let skipped = squash true s in
    let marked = b'-' ∷ skipped in
    if is_ascii_alphanumeric c then kept else if prev_hyphen then skipped else marked

abbrev pub is_hyphen : ℕ → Bool
is_hyphen c = c == b'-'

unfoldable pub trim_hyphens : Text → Text
unfolding trim_start_matches trim_end_matches
trim_hyphens s = trim_end_matches is_hyphen (trim_start_matches is_hyphen s)

-- `VOCAB_ATOM_KINDS.contains`
unfoldable pub is_vocab_kind : Text → Bool
unfolding is_one_of
is_vocab_kind kind = is_one_of kind (
    "question" ∷ "proposition" ∷ "source" ∷ "person" ∷ "date" ∷ "debate" ∷ "theme" ∷ "event"
    ∷ "place" ∷ "predicate" ∷ [])

unfoldable pub validate_kind : Text → Canon Text
unfolding is_vocab_kind
validate_kind kind = if is_vocab_kind kind then ok kind else err (invalid_kind kind)

-- `slug.split_once(':')`
unfoldable pub split_once_colon : Text → Option (Text × Text)
split_once_colon [] = none
split_once_colon (c ∷ s) =
    let rest = split_once_colon s in
    if c == b':'
    then some ([], s)
    else elim rest [ none ↦ none | some (before, behind) ↦ some (c ∷ before, behind) ]

abbrev with_kind : Text → Option (Text × Text) → Canon (Text × Text)
with_kind slug none = err (invalid_slug slug)
with_kind slug (some (kind, fragment)) = validate_kind kind >>= λ k. ok (kind, fragment)

unfoldable pub parse_full_slug : Text → Canon (Text × Text)
unfolding split_once_colon validate_kind
parse_full_slug slug = with_kind slug (split_once_colon slug)

module _ (u : Unicode) (t : Transliteration) where
  unfoldable pub normalize_slug_fragment : Text → Text
  unfolding squash trim_hyphens codes
  normalize_slug_fragment raw =
      let s = trim_hyphens (squash false (u.to_lowercase (t.deunicode raw))) in
      if is_empty s then codes "x" else s

  unfoldable pub full_slug : Text → Text → Canon Text
  unfolding validate_kind normalize_slug_fragment
  full_slug kind fragment =
      validate_kind kind >>= λ k. ok (k ++ b':' ∷ normalize_slug_fragment fragment)
