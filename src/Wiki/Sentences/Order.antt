-- ===== src/Wiki/Sentences/Order.antt =====
-- The boundaries come in order, each once.
use talaria_v.Base.{
  ℕ, ◌≡◌, ◌<◌, ◌≤◌, true, List, [], ◌∷◌, ◌++◌, ◌==◌, leb, All, All-mono, arith, Bool-cases, inl,
  inr, All-append,
}
use talaria_v.Base.Sort.{IsSorted, sort_by, sort_by-IsSorted, sort_by-All}
use talaria_v.Text.{Text}
use talaria_v.Wiki.Sentences.{
  dedup_offsets, sentence_ends, wiki_heading_spans, both_ends, sentence_boundaries,
}

abbrev pub IsAscending : List ℕ → Type 0
IsAscending [] = Unit
IsAscending (a ∷ xs) = All (λ b. a < b) xs × IsAscending xs

dedup_offsets-All : (P : ℕ → Type 0) (xs : List ℕ) → All P xs → All P (dedup_offsets xs)
unfolding dedup_offsets
dedup_offsets-All P [] h = tt
dedup_offsets-All P (a ∷ []) h = h
dedup_offsets-All P (a ∷ b ∷ xs) h = ground (arith, h.0, dedup_offsets-All P (b ∷ xs) h.1)

above-All :
    (a b : ℕ) (xs : List ℕ) → a < b → All (λ c. leb b c ≡ true) xs → All (λ c. a < c) (b ∷ xs)
above-All a b xs h k = (h, All-mono xs (λ c e. omega (arith, lt_leb e)) k)
  where
    lt_leb : {c : ℕ} → leb b c ≡ true → b ≤ c
    lt_leb e = ground (arith, e)

dedup_offsets-IsAscending : (xs : List ℕ) → IsSorted leb xs → IsAscending (dedup_offsets xs)
unfolding dedup_offsets
dedup_offsets-IsAscending [] h = tt
dedup_offsets-IsAscending (a ∷ []) h = (tt, tt)
dedup_offsets-IsAscending (a ∷ b ∷ xs) h = elim (Bool-cases (a == b)) [
  | inl e ↦ rw e (dedup_offsets-IsAscending (b ∷ xs) h.1)
  | inr e ↦ rw e (
    dedup_offsets-All (λ c. a < c) (b ∷ xs) (above-All a b xs (ground (arith, e, h.0.0)) h.1.0),
    dedup_offsets-IsAscending (b ∷ xs) h.1,
  )
]

pub boundaries-IsAscending : (text : Text) → IsAscending (sentence_boundaries text)
unfolding sentence_boundaries
boundaries-IsAscending text =
    let found : List ℕ = sentence_ends [] 0 text ++ both_ends (wiki_heading_spans text) in
    dedup_offsets-IsAscending (sort_by leb found)
      (sort_by-IsSorted leb (λ x y h. ground (arith, h)) (λ x y z h k. ground (arith, h, k)) found)

module _ (P : ℕ → Type 0) where
  pub boundaries-All :
      (text : Text)
      → All P (sentence_ends [] 0 text)
      → All P (both_ends (wiki_heading_spans text))
      → All P (sentence_boundaries text)
  unfolding sentence_boundaries
  boundaries-All text h k =
      let found : List ℕ = sentence_ends [] 0 text ++ both_ends (wiki_heading_spans text) in
      dedup_offsets-All P (sort_by leb found) (
        sort_by-All leb P found
          (All-append P (sentence_ends [] 0 text) (both_ends (wiki_heading_spans text)) h k))
