-- ===== src/Wiki/Sentences/Boundaries.antt =====
-- Where the boundaries of sentences stand.
use talaria_v.Base.{
  ℕ, ◌+◌, ◌≡◌, ◌≢◌, refl, sym, ◌∙◌, ap, ◌⊎◌, inl, inr, Bool, true, not, ◌&&◌, [], ◌∷◌, ◌++◌, All,
  arith, Bool-cases, drop, take, take-append-drop,
}
use mathlib.Core.List.{append_assoc}
use talaria_v.Text.{Text, byte_len, utf8_width, is_ascii_digit}
use talaria_v.Wiki.Sections.Offsets.{byte_len-append}
use talaria_v.Wiki.Sentences.{
  count_while, is_ascii_whitespace, is_terminator, is_abbreviation_boundary, is_sentence_start,
  ends_sentence, sentence_ends,
}

abbrev pub StartsNoSpace : Text → Type 0
StartsNoSpace [] = ⊥
StartsNoSpace (c ∷ q) = c ≢ b' '

abbrev pub EndsNoSpace : Text → Type 0
EndsNoSpace [] = ⊥
EndsNoSpace (c ∷ []) = c ≢ b' '
EndsNoSpace (c ∷ d ∷ p) = EndsNoSpace (d ∷ p)

-- The offset is a joint of the text, with something other than a space on one side of it.
pub record IsJoint (text : Text) (b : ℕ) : Type 0 where
  pub front : Text
  pub back : Text
  pub splits : text ≡ front ++ back
  pub offset : b ≡ byte_len front
  pub no_space : StartsNoSpace back ⊎ EndsNoSpace front

is_sentence_start-NoSpace : (s : Text) → is_sentence_start s ≡ true → StartsNoSpace s
unfolding is_sentence_start is_ascii_digit
is_sentence_start-NoSpace [] h = absurd (ground (arith, h))
is_sentence_start-NoSpace (c ∷ s) h = ground (arith, h)

-- Characters of ASCII have one byte each.
byte_len-take_while :
    (s : Text)
    → byte_len (take (count_while is_ascii_whitespace s) s) ≡ count_while is_ascii_whitespace s
unfolding count_while byte_len utf8_width
byte_len-take_while [] = refl
byte_len-take_while (c ∷ s) = ground (arith, byte_len-take_while s)

pub snoc-splits : {text : Text} (p s : Text) (c : ℕ) → text ≡ p ++ c ∷ s → text ≡ (p ++ c ∷ []) ++ s
snoc-splits p s c e = e ∙ sym (append_assoc p (c ∷ []) s)

pub snoc-offset :
    {i : ℕ} (p : Text) (c : ℕ) → i ≡ byte_len p → i + utf8_width c ≡ byte_len (p ++ c ∷ [])
unfolding byte_len
snoc-offset p c e = omega (arith, byte_len-append p (c ∷ []))

and_parts : (a b c : Bool) → (a && b && c) ≡ true → (a ≡ true) × (c ≡ true)
and_parts a b c h = ground (arith, h)

terminator_width : (c : ℕ) → is_terminator c ≡ true → utf8_width c ≡ 1
unfolding utf8_width
terminator_width c h = ground (arith, h)

-- What a boundary at `c` says of `c` and of the text behind it.
ends_sentence-parts :
    (before : Text) (c : ℕ) (s : Text)
    → ends_sentence before c s ≡ true
    → (utf8_width c ≡ 1) × (is_sentence_start (drop (count_while is_ascii_whitespace s) s) ≡ true)
unfolding ends_sentence
ends_sentence-parts before c s h =
    let (t, start) =
      and_parts (is_terminator c) (not (is_abbreviation_boundary (c ∷ before)))
        (is_sentence_start (drop (count_while is_ascii_whitespace s) s)) h in
    (terminator_width c t, start)

module _ (text : Text) where
  end-IsJoint :
      (before p s : Text) (c i : ℕ)
      → text ≡ p ++ c ∷ s
      → i ≡ byte_len p
      → ends_sentence before c s ≡ true
      → IsJoint text (i + 1 + count_while is_ascii_whitespace s)
  unfolding byte_len
  end-IsJoint before p s c i e o h =
      let n : ℕ = count_while is_ascii_whitespace s in
      let parts = ends_sentence-parts before c s h in
      record {
        front = p ++ c ∷ take n s;
        back = drop n s;
        splits =
            e
            ∙ ap (λ t. p ++ c ∷ t) (sym (take-append-drop n s))
            ∙ sym (append_assoc p (c ∷ take n s) (drop n s));
        offset = omega (arith, byte_len-append p (c ∷ take n s), byte_len-take_while s, parts.0, o);
        no_space = inl (is_sentence_start-NoSpace (drop n s) parts.1);
      }

  pub sentence_ends-IsJoint :
      (before p s : Text) (i : ℕ)
      → text ≡ p ++ s
      → i ≡ byte_len p
      → All (IsJoint text) (sentence_ends before i s)
  unfolding sentence_ends
  sentence_ends-IsJoint before p [] i e o = tt
  sentence_ends-IsJoint before p (c ∷ s) i e o =
      let later =
        sentence_ends-IsJoint (c ∷ before) (p ++ c ∷ []) s (i + utf8_width c) (snoc-splits p s c e)
          (snoc-offset p c o) in
      elim (Bool-cases (ends_sentence before c s)) [
        | inl h ↦ rw (sentence_ends, h) (end-IsJoint before p s c i e o h, later)
        | inr h ↦ rw (sentence_ends, h) later
      ]
