-- ===== src/Wiki/Sections/Slices.antt =====
-- The offsets of a section name its text.
use talaria_v.Base.{
  ℕ, ◌+◌, ◌-◌, ◌≡◌, refl, ◌∙◌, ap, inl, inr, Bool, List, [], ◌∷◌, ◌++◌, is_empty, arith, unwrap_or,
  Bool-cases, ℤ, length, All, All-append, ◌&&◌,
}
use mathlib.Core.List.{append_assoc}
use talaria_v.Text.{Text, trim, trim_start_matches, trim_end_matches, is_whitespace, byte_len}
use talaria_v.Wiki.{get_range}
use talaria_v.Wiki.Sections.{WikiSectionSpan, char_offset, as_i32, span_of, push_section}
use talaria_v.Wiki.Sections.Offsets.{byte_len-append, get_range-middle, char_offset-append}

-- The text falls into three parts of which the second is the section's, and the offsets are the
-- characters before its two ends.
pub record IsSlice (w : Text) (section : WikiSectionSpan) : Type 0 where
  pub before : Text
  pub behind : Text
  pub splits : w ≡ before ++ (section.wikitext ++ behind)
  pub starts : section.start_offset ≡ as_i32 (length before)
  pub ends : section.end_offset ≡ as_i32 (length (before ++ section.wikitext))
  pub trimmed : (raw : Text) × (section.wikitext ≡ trim raw)

trim_start-parts : (p : ℕ → Bool) (s : Text) → (lead : Text) × (s ≡ lead ++ trim_start_matches p s)
unfolding trim_start_matches
trim_start-parts p [] = ([], refl)
trim_start-parts p (c ∷ s) =
    let (lead, e) = trim_start-parts p s in
    elim (Bool-cases (p c)) [ inl h ↦ (c ∷ lead, rw h (ap (◌∷◌ c) e)) | inr h ↦ ([], rw h refl) ]

trim_end-parts : (p : ℕ → Bool) (s : Text) → (trail : Text) × (s ≡ trim_end_matches p s ++ trail)
unfolding trim_end_matches
trim_end-parts p [] = ([], refl)
trim_end-parts p (c ∷ s) =
    let (trail, e) = trim_end-parts p s in
    elim (Bool-cases (p c && is_empty (trim_end_matches p s))) [
      | inl h ↦ (c ∷ s, rw h refl)
      | inr h ↦ (trail, rw h (ap (◌∷◌ c) e))
    ]

sum-minus_right : (a b : ℕ) → (a + b) - b ≡ a
sum-minus_right a b = omega arith

-- The section that is pushed for the part `b` of the text.
module _ (w p b q : Text) (splits : w ≡ p ++ (b ++ q)) where
  pushed_text : unwrap_or (get_range w (byte_len p) (byte_len p + byte_len b)) [] ≡ b
  pushed_text = rw (splits, get_range-middle p b q) refl

  pushed_parts :
      (lead trail : Text) × ((b ≡ lead ++ (trim b ++ trail))
        × (b ≡ lead ++ trim_start_matches is_whitespace b))
  unfolding trim
  pushed_parts =
      let (lead, e) = trim_start-parts is_whitespace b in
      let (trail, f) = trim_end-parts is_whitespace (trim_start_matches is_whitespace b) in
      (lead, trail, (e ∙ ap (◌++◌ lead) f, e))

  leading_bytes :
      (lead : Text)
      → b ≡ lead ++ trim_start_matches is_whitespace b
      → byte_len b - byte_len (trim_start_matches is_whitespace b) ≡ byte_len lead
  leading_bytes lead e =
      ap (λ s. byte_len s - byte_len (trim_start_matches is_whitespace b)) e
      ∙ rw (byte_len-append lead (trim_start_matches is_whitespace b))
          (sum-minus_right (byte_len lead) (byte_len (trim_start_matches is_whitespace b)))

  four_parts :
      (lead trail : Text)
      → b ≡ lead ++ (trim b ++ trail)
      → w ≡ (p ++ lead) ++ (trim b ++ (trail ++ q))
  four_parts lead trail e =
      splits
      ∙ ap (λ s. p ++ (s ++ q)) e
      ∙ rw
          (
            append_assoc lead (trim b ++ trail) q,
            append_assoc (trim b) trail q,
            append_assoc p lead (trim b ++ (trail ++ q)),
          )
          refl

  start_offset_is :
      (lead trail : Text)
      → b ≡ lead ++ (trim b ++ trail)
      → char_offset w (byte_len p + byte_len lead) ≡ as_i32 (length (p ++ lead))
  start_offset_is lead trail e =
      rw (four_parts lead trail e, ← byte_len-append p lead)
        (char_offset-append (p ++ lead) (trim b ++ (trail ++ q)))

  end_offset_is :
      (lead trail : Text)
      → b ≡ lead ++ (trim b ++ trail)
      → char_offset w (byte_len p + byte_len lead + byte_len (trim b))
        ≡ as_i32 (length ((p ++ lead) ++ trim b))
  end_offset_is lead trail e =
      rw
        (
          four_parts lead trail e,
          ← byte_len-append p lead,
          ← byte_len-append (p ++ lead) (trim b),
          ← append_assoc (p ++ lead) (trim b) (trail ++ q),
        )
        (char_offset-append ((p ++ lead) ++ trim b) (trail ++ q))

  span_of-IsSlice :
      (ordinal : ℤ) (title : Text) → IsSlice w (span_of w ordinal title (byte_len p) b)
  unfolding span_of
  span_of-IsSlice ordinal title =
      let (lead, trail, (e, f)) = pushed_parts in
      record {
        before = p ++ lead;
        behind = trail ++ q;
        splits = four_parts lead trail e;
        starts = rw (leading_bytes lead f) (start_offset_is lead trail e);
        ends = rw (leading_bytes lead f) (end_offset_is lead trail e);
        trimmed = (b, refl);
      }

  pub push_section-IsSlice :
      (sections : List WikiSectionSpan) (ordinal : ℤ) (title : Text)
      → All (IsSlice w) sections
      → All
          (IsSlice w)
          (push_section sections w ordinal title (byte_len p) (byte_len p + byte_len b))
  unfolding push_section
  push_section-IsSlice sections ordinal title h = rw pushed_text (
      All-append (IsSlice w) sections (span_of w ordinal title (byte_len p) b ∷ []) h
        (span_of-IsSlice ordinal title, tt))
