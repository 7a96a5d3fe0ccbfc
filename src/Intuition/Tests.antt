-- ===== src/Intuition/Tests.antt =====
-- Tests and witnesses on debates; the transliteration of the tests drops what is not ASCII.
use talaria_v.Base.{
  ◌<◌, ◌≡◌, refl, [], ◌∷◌, none, some, All, ltb, keep, arith, Bool-cases, inl, inr,
}
use talaria_v.Text.{Text, codes, to_ascii_lowercase}
use talaria_v.Text.Sample.{ascii_tables}
use talaria_v.Intuition.Slug.{
  Transliteration, ok, ◌>>=◌, normalize_slug_fragment, full_slug, parse_full_slug, validate_kind,
}
use talaria_v.Intuition.Slug.Shape.{IsSlug, normalize_slug_fragment-IsSlug}
use talaria_v.Intuition.Slug.RoundTrip.{full_slug-parse_full_slug}
use talaria_v.Intuition.Json.{Json}
use talaria_v.Intuition.Canon.Linked.{IsWhole}
use talaria_v.Intuition.Plan.{
  ConflictGroup, SoftClaimInput, PlannedDebate, debate_from_place_conflict, debate_from_soft_claim,
}
use talaria_v.Intuition.Plan.Whole.{debate_from-IsWhole}

abbrev ascii_of : Text → Text
ascii_of s = keep (λ c. ltb c 128) s

ascii_of-All : (s : Text) → All (λ c. c < 128) (ascii_of s)
ascii_of-All [] = tt
ascii_of-All (c ∷ s) = elim (Bool-cases (ltb c 128)) [
  | inl low ↦ rw low (ground arith, ascii_of-All s)
  | inr high ↦ rw high (ascii_of-All s)
]

ascii_of-same : (s : Text) → All (λ c. c < 128) s → ascii_of s ≡ s
ascii_of-same [] h = refl
ascii_of-same (c ∷ s) h = ground (arith, h.0, ascii_of-same s h.1)

abbrev ascii_only : Transliteration
ascii_only = record {
  deunicode = ascii_of;
  deunicode_is_ascii = ascii_of-All;
  deunicode_ascii = ascii_of-same;
}

abbrev no_digest : Json → Text
no_digest payload = []

full_slug_test :
    full_slug ascii_tables ascii_only (codes "question") (codes "  Foo  Bar  ")
    ≡ ok (codes "question:foo-bar")
unfolding full_slug codes to_ascii_lowercase
full_slug_test = refl

normalize_slug_fragment-IsSlug_example :
    IsSlug (normalize_slug_fragment ascii_tables ascii_only (codes "--A, B!"))
    × (normalize_slug_fragment ascii_tables ascii_only
          (normalize_slug_fragment ascii_tables ascii_only (codes "--A, B!"))
        ≡ normalize_slug_fragment ascii_tables ascii_only (codes "--A, B!"))
normalize_slug_fragment-IsSlug_example =
    normalize_slug_fragment-IsSlug ascii_tables ascii_only (codes "--A, B!")

full_slug-parse_full_slug_example :
    full_slug ascii_tables ascii_only (codes "person") (codes "Ney") >>= parse_full_slug
    ≡ validate_kind (codes "person") >>= λ k.
        ok (k, normalize_slug_fragment ascii_tables ascii_only (codes "Ney"))
full_slug-parse_full_slug_example =
    full_slug-parse_full_slug ascii_tables ascii_only (codes "person") (codes "Ney")

abbrev a_conflict : ConflictGroup
a_conflict = record {
  subject_label = codes "Ney";
  occurrence_stem = codes "stem";
  event_type = codes "battle";
  time_key = codes "1805";
  places = codes "Ulm" ∷ [];
  event_id = some (codes "42");
  event_title = none;
}

abbrev a_claim : SoftClaimInput
a_claim = record {
  subject_label = codes "Ney";
  claim_id = codes "7";
  claim_kind = codes "tradition";
  text = codes "He fled.";
  event_id = none;
  event_title = none;
  place_label = none;
  event_type = none;
  time_surface = none;
}

debate_from-IsWhole_example :
    ((p : PlannedDebate) × (debate_from_place_conflict ascii_tables ascii_only no_digest a_conflict
          (codes "Ulm")
        ≡ ok p)
      × IsWhole p.bundle)
    × ((p : PlannedDebate) × (debate_from_soft_claim ascii_tables ascii_only no_digest a_claim
          ≡ ok p)
        × IsWhole p.bundle)
debate_from-IsWhole_example =
    debate_from-IsWhole ascii_tables ascii_only no_digest a_conflict (codes "Ulm") a_claim
