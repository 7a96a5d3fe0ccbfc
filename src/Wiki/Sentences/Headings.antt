-- ===== src/Wiki/Sentences/Headings.antt =====
-- Where the headings inside a text stand.
use talaria_v.Base.{
  ℕ, zero, suc, ◌+◌, ◌≡◌, ◌≢◌, refl, sym, ◌∙◌, ap, ◌<◌, inl, inr, true, [], ◌∷◌, ◌++◌, ◌==◌, leb,
  All, arith, Bool-cases, drop, take, take-append-drop,
}
use mathlib.Core.List.{append_assoc}
use talaria_v.Text.{Text, byte_len, utf8_width}
use talaria_v.Wiki.Sections.{leading_equals}
use talaria_v.Wiki.Sections.Offsets.{byte_len-append}
use talaria_v.Wiki.Sentences.{
  count_while, heading_parts, is_heading, not_equals, parts_length, heading_spans_from, both_ends,
}
use talaria_v.Wiki.Sentences.Boundaries.{
  StartsNoSpace, EndsNoSpace, IsJoint, snoc-splits, snoc-offset,
}

EndsNoSpace-append : (p q : Text) → EndsNoSpace q → EndsNoSpace (p ++ q)
EndsNoSpace-append [] q h = h
EndsNoSpace-append (c ∷ []) [] h = absurd h
EndsNoSpace-append (c ∷ []) (d ∷ q) h = h
EndsNoSpace-append (c ∷ d ∷ p) q h = EndsNoSpace-append (d ∷ p) q h

marks_end :
    (c n : ℕ) (s : Text)
    → c ≢ b' '
    → (0 < n → EndsNoSpace (take n s))
    → EndsNoSpace (take (suc n) (c ∷ s))
marks_end c zero s h k = h
marks_end c (suc n) s h k = EndsNoSpace-append (c ∷ []) (take (suc n) s) (k (omega arith))

leading_equals-take : (s : Text) → 0 < leading_equals s → EndsNoSpace (take (leading_equals s) s)
unfolding leading_equals
leading_equals-take [] h = absurd (omega arith)
leading_equals-take (c ∷ s) h = elim (Bool-cases (c == b'=')) [
  | inl e ↦
      rw (leading_equals, e)
        (marks_end c (leading_equals s) s (ground (arith, e)) (leading_equals-take s))
  | inr e ↦ absurd (ground (arith, h, e))
]

leading_equals-NoSpace : (s : Text) → 0 < leading_equals s → StartsNoSpace s
unfolding leading_equals
leading_equals-NoSpace [] h = absurd (omega arith)
leading_equals-NoSpace (c ∷ s) h = ground (arith, h)

take-sum : (m n k : ℕ) (s : Text) → k ≡ m + n → take k s ≡ take m s ++ take n (drop m s)
take-sum zero n k s e = ap (λ j. take j s) (omega arith)
take-sum (suc m) n zero s e = absurd (omega arith)
take-sum (suc m) zero (suc k) [] e = refl
take-sum (suc m) (suc n) (suc k) [] e = refl
take-sum (suc m) n (suc k) (c ∷ s) e = ap (◌∷◌ c) (take-sum m n k s (omega arith))

drop-sum : (m n k : ℕ) (s : Text) → k ≡ m + n → drop k s ≡ drop n (drop m s)
drop-sum zero n k s e = ap (λ j. drop j s) (omega arith)
drop-sum (suc m) n zero s e = absurd (omega arith)
drop-sum (suc m) zero (suc k) [] e = refl
drop-sum (suc m) (suc n) (suc k) [] e = refl
drop-sum (suc m) n (suc k) (c ∷ s) e = drop-sum m n k s (omega arith)

-- A heading has its marks at the front and at its end.
is_heading-sides :
    (s : Text)
    → is_heading (heading_parts s) ≡ true
    → StartsNoSpace s × EndsNoSpace (take (parts_length (heading_parts s)) s)
unfolding is_heading heading_parts
is_heading-sides s h =
    let m : ℕ = leading_equals s in
    let t : ℕ = count_while not_equals (drop m s) in
    let k : ℕ = leading_equals (drop t (drop m s)) in
    (
      leading_equals-NoSpace s (ground (arith, h)),
      rw (take-sum (m + t) k (m + t + k) s refl, drop-sum m t (m + t) s refl)
          (EndsNoSpace-append (take (m + t) s) (take k (drop t (drop m s)))
            (leading_equals-take (drop t (drop m s)) (ground (arith, h)))),
    )

module _ (text : Text) where
  heading-IsJoint :
      (p s : Text) (i : ℕ)
      → text ≡ p ++ s
      → i ≡ byte_len p
      → is_heading (heading_parts s) ≡ true
      → IsJoint text i × IsJoint text (i + byte_len (take (parts_length (heading_parts s)) s))
  heading-IsJoint p s i e o h =
      let n : ℕ = parts_length (heading_parts s) in
      let sides = is_heading-sides s h in
      (
        record { front = p; back = s; splits = e; offset = o; no_space = inl sides.0 },
        record {
          front = p ++ take n s;
          back = drop n s;
          splits =
              e
              ∙ ap (◌++◌ p) (sym (take-append-drop n s))
              ∙ sym (append_assoc p (take n s) (drop n s));
          offset = omega (arith, byte_len-append p (take n s), o);
          no_space = inr (EndsNoSpace-append p (take n s) sides.1);
        },
      )

  pub heading_spans-IsJoint :
      (fuel i : ℕ) (p s : Text)
      → text ≡ p ++ s
      → i ≡ byte_len p
      → All (IsJoint text) (both_ends (heading_spans_from fuel i s))
  unfolding heading_spans_from
  heading_spans-IsJoint zero i p s e o = tt
  heading_spans-IsJoint (suc fuel) i p [] e o = tt
  heading_spans-IsJoint (suc fuel) i p (c ∷ s) e o =
      let n : ℕ = parts_length (heading_parts (c ∷ s)) in
      let passed =
        heading_spans-IsJoint fuel (i + utf8_width c) (p ++ c ∷ []) s (snoc-splits p s c e)
          (snoc-offset p c o) in
      elim (Bool-cases (leb (byte_len (c ∷ s)) 4)) [
        | inl short ↦ rw (heading_spans_from, short) tt
        | inr long ↦ elim (Bool-cases (is_heading (heading_parts (c ∷ s)))) [
          | inr h ↦ rw (heading_spans_from, long, h) passed
          | inl h ↦
              let joints = heading-IsJoint p (c ∷ s) i e o h in
              rw (heading_spans_from, long, h)
                (
                  joints.0,
                  (
                    joints.1,
                    heading_spans-IsJoint fuel (i + byte_len (take n (c ∷ s))) (p ++ take n (c ∷ s))
                        (drop n (c ∷ s))
                        (e
                          ∙ ap (◌++◌ p) (sym (take-append-drop n (c ∷ s)))
                          ∙ sym (append_assoc p (take n (c ∷ s)) (drop n (c ∷ s))))
                        (omega (arith, byte_len-append p (take n (c ∷ s)), o)),
                  ),
                )
        ]
      ]
