-- ===== src/Wiki/Sentences/Parts.antt =====
-- The sentences that have been pushed: numbered, in order, inside the text.
use talaria_v.Base.{
  ℕ, ◌+◌, ◌≡◌, refl, ◌∙◌, subst, ◌≤◌, inl, inr, true, List, [], ◌∷◌, ◌++◌, some, arith, Bool-cases,
  length,
}
use talaria_v.Text.{Text, trim}
use talaria_v.Text.Unicode.{Unicode}
use talaria_v.Wiki.{get_range}
use talaria_v.Wiki.Sections.{as_i32}
use talaria_v.Wiki.Sentences.{SentenceSpan, is_sentence, push_slice}

module _ (u : Unicode) (text : Text) where
  -- The `n`-th sentence, cut from the text.
  pub record IsPart (n : ℕ) (s : SentenceSpan) : Type 0 where
    pub start : ℕ
    pub end : ℕ
    pub raw : Text
    pub ordinal_is : s.ordinal ≡ as_i32 n
    pub start_is : s.char_start ≡ as_i32 start
    pub end_is : s.char_end ≡ as_i32 end
    pub forward : start ≤ end
    pub cut : get_range text start end ≡ some raw
    pub text_is : s.text ≡ trim raw
    pub sentence : is_sentence u s.text ≡ true

  -- Numbered from `n` on, between `lo` and `hi`, each behind the one before it.
  abbrev pub InOrder : ℕ → ℕ → ℕ → List SentenceSpan → Type 0
  InOrder n lo hi [] = lo ≤ hi
  InOrder n lo hi (s ∷ ss) = (p : IsPart n s) × ((lo ≤ p.start) × InOrder (n + 1) p.end hi ss)

  pub raise :
      (n lo hi top : ℕ) (ss : List SentenceSpan)
      → hi ≤ top
      → InOrder n lo hi ss
      → InOrder n lo top ss
  raise n lo hi top [] e h = omega arith
  raise n lo hi top (s ∷ ss) e (p, (l, h)) = (p, (l, raise (n + 1) p.end hi top ss e h))

  snoc :
      (n lo a k : ℕ) (ss : List SentenceSpan) (s : SentenceSpan) (p : IsPart k s)
      → k ≡ n + length ss
      → a ≤ p.start
      → InOrder n lo a ss
      → InOrder n lo p.end (ss ++ s ∷ [])
  snoc n lo a k [] s p e l h =
      subst (λ j. (q : IsPart j s) × ((lo ≤ q.start) × (q.end ≤ p.end))) (e ∙ omega arith)
        (p, (omega arith, omega arith))
  snoc n lo a k (t ∷ ss) s p e l (q, (m, h)) =
      (q, (m, snoc (n + 1) q.end a k ss s p (omega arith) l h))

  pub push_slice-InOrder :
      (ss : List SentenceSpan) (a lo b : ℕ) (raw : Text)
      → a ≤ lo
      → lo ≤ b
      → get_range text lo b ≡ some raw
      → InOrder 0 0 a ss
      → InOrder 0 0 b (push_slice u ss lo b (trim raw))
  push_slice-InOrder ss a lo b raw l m cut h = elim (Bool-cases (is_sentence u (trim raw))) [
    | inl e ↦
        let made : SentenceSpan = record {
          ordinal = as_i32 (length ss);
          text = trim raw;
          char_start = as_i32 lo;
          char_end = as_i32 b;
        } in
        rw e (
          snoc 0 0 a (length ss) ss made
            (record {
              start = lo;
              end = b;
              raw = raw;
              ordinal_is = refl;
              start_is = refl;
              end_is = refl;
              forward = m;
              cut = cut;
              text_is = refl;
              sentence = e;
            })
            (omega arith) l h)
    | inr e ↦ rw e (raise 0 0 a b ss (omega arith) h)
  ]
