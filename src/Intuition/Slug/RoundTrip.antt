-- ===== src/Intuition/Slug/RoundTrip.antt =====
-- Reading a slug back.
use talaria_v.Base.{
  ◌≡◌, refl, Bool, true, false, List, [], ◌∷◌, ◌++◌, some, ◌==◌, any, all, not, Any, inl, inr, ℕ,
  String, arith, Bool-cases,
}
use talaria_v.Text.{Text, codes}
use talaria_v.Text.Equality.{is_one_of_iff}
use talaria_v.Text.Unicode.{Unicode}
use talaria_v.Intuition.Slug.{
  Transliteration, ok, ◌>>=◌, validate_kind, is_vocab_kind, split_once_colon, parse_full_slug,
  normalize_slug_fragment, full_slug,
}

split_once_colon-append :
    (k s : Text) → any (λ c. c == b':') k ≡ false → split_once_colon (k ++ b':' ∷ s) ≡ some (k, s)
unfolding split_once_colon
split_once_colon-append [] s h = refl
split_once_colon-append (c ∷ k) s h =
    ground (arith, split_once_colon-append k s (ground (arith, h)))

literal_lacks :
    (p : ℕ → Bool) (s : Text) (lits : List String)
    → all (λ lit. not (any p (codes lit))) lits ≡ true
    → Any (λ lit. s ≡ codes lit) lits
    → any p s ≡ false
literal_lacks p s [] h k = elim k [ ]
literal_lacks p s (lit ∷ lits) h (inl same) = rw same (ground (arith, h))
literal_lacks p s (lit ∷ lits) h (inr later) = literal_lacks p s lits (ground (arith, h)) later

no_colon : (kind : Text) → is_vocab_kind kind ≡ true → any (λ c. c == b':') kind ≡ false
unfolding is_vocab_kind codes
no_colon kind h =
    let kinds =
      "question" ∷ "proposition" ∷ "source" ∷ "person" ∷ "date" ∷ "debate" ∷ "theme" ∷ "event"
      ∷ "place" ∷ "predicate" ∷ [] in
    literal_lacks (λ c. c == b':') kind kinds refl ((is_one_of_iff kind kinds).0 h)

-- Reading a text of a vocabulary kind, a colon and a fragment.
pub parse_full_slug-append :
    (kind fragment : Text)
    → is_vocab_kind kind ≡ true
    → parse_full_slug (kind ++ b':' ∷ fragment) ≡ ok (kind, fragment)
unfolding parse_full_slug validate_kind
parse_full_slug-append kind fragment h =
    rw (split_once_colon-append kind fragment (no_colon kind h), h) refl

-- The slug made of a kind and a text, read back, is the kind and the normalized text; where the
-- kind is unknown, both answer the same error.
pub full_slug-parse_full_slug :
    (u : Unicode) (t : Transliteration) (kind raw : Text)
    → full_slug u t kind raw >>= parse_full_slug
      ≡ validate_kind kind >>= λ k. ok (k, normalize_slug_fragment u t raw)
unfolding full_slug validate_kind
full_slug-parse_full_slug u t kind raw = elim (Bool-cases (is_vocab_kind kind)) [
  | inl known ↦ rw known (parse_full_slug-append kind (normalize_slug_fragment u t raw) known)
  | inr unknown ↦ rw unknown refl
]
