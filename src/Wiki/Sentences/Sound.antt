-- ===== src/Wiki/Sentences/Sound.antt =====
-- The splitting into sentences never slices out of order, and what it returns.
use talaria_v.Base.{
  ℕ, ◌+◌, ◌≡◌, refl, sym, ◌∙◌, ap, subst, ◌<◌, ◌≤◌, inl, inr, List, [], ◌∷◌, ◌++◌, Option, some,
  ltb, is_empty, All, All-mono, arith, Bool-cases, length, take, drop, take-append-drop,
}
use mathlib.Core.List.{append_assoc, append-nil}
use talaria_v.Text.{Text, byte_len, trim}
use talaria_v.Text.Unicode.{Unicode}
use talaria_v.Text.Bytes.{drop_bytes}
use talaria_v.Wiki.{get_range}
use talaria_v.Wiki.Sections.Offsets.{byte_len-append, get_range-middle, drop_bytes-append}
use talaria_v.Wiki.Sentences.{
  SentenceSpan, push_slice, push_sentence, skip_spaces, split_at_boundaries, sentence_boundaries,
  wiki_heading_spans, split_sentences,
}
use talaria_v.Wiki.Sentences.Order.{IsAscending, boundaries-IsAscending, boundaries-All}
use talaria_v.Wiki.Sentences.Boundaries.{IsJoint, sentence_ends-IsJoint}
use talaria_v.Wiki.Sentences.Headings.{heading_spans-IsJoint}
use talaria_v.Wiki.Sentences.Parts.{InOrder, raise, push_slice-InOrder}
use talaria_v.Wiki.Sentences.Cuts.{cut_later, spaces, byte_len-spaces, spaces_to_joint}

module _ (u : Unicode) (text : Text) where
  -- The text is cut at the offset.
  record IsCutAt (at : ℕ) : Type 0 where
    front : Text
    back : Text
    splits : text ≡ front ++ back
    offset : at ≡ byte_len front

  joint_cut : (b : ℕ) → IsJoint text b → IsCutAt b
  joint_cut b j = record { front = j.front; back = j.back; splits = j.splits; offset = j.offset }

  -- A slice from a cut to a later one does not panic.
  slice_between :
      (a b : ℕ) → IsCutAt a → IsCutAt b → a ≤ b → (raw : Text) × (get_range text a b ≡ some raw)
  slice_between a b j k h =
      let (m, (f, g)) =
        cut_later j.front j.back k.front k.back (sym j.splits ∙ k.splits)
          (subst (λ x. x ≤ byte_len k.front) j.offset (subst (λ y. a ≤ y) k.offset h)) in
      (
        m,
        rw (j.splits, g, j.offset, k.offset ∙ ap byte_len f ∙ byte_len-append j.front m)
            (get_range-middle j.front m k.back),
      )

  skip_spaces-back : (b : ℕ) (j : IsCutAt b) → skip_spaces text b ≡ b + spaces j.back
  unfolding skip_spaces
  skip_spaces-back b j =
      ap (λ s. b + spaces s)
        (ap (λ t. drop_bytes b t) j.splits
          ∙ ap (λ y. drop_bytes y (j.front ++ j.back)) j.offset
          ∙ drop_bytes-append j.front j.back)

  skipped_bytes :
      (b : ℕ) (j : IsCutAt b)
      → skip_spaces text b ≡ byte_len (j.front ++ take (spaces j.back) j.back)
  skipped_bytes b j = omega (
    arith,
    skip_spaces-back b j,
    j.offset,
    byte_len-spaces j.back,
    byte_len-append j.front (take (spaces j.back) j.back),
  )

  skip_spaces-IsCutAt : (b : ℕ) → IsCutAt b → IsCutAt (skip_spaces text b)
  skip_spaces-IsCutAt b j =
      let n : ℕ = spaces j.back in
      record {
        front = j.front ++ take n j.back;
        back = drop n j.back;
        splits =
            j.splits
            ∙ ap (◌++◌ j.front) (sym (take-append-drop n j.back))
            ∙ sym (append_assoc j.front (take n j.back) (drop n j.back));
        offset = skipped_bytes b j;
      }

  skip_spaces-joint : (a b : ℕ) → IsCutAt a → IsJoint text b → a < b → skip_spaces text a ≤ b
  skip_spaces-joint a b j k h =
      let reached =
        spaces_to_joint j.front j.back k.front k.back (sym j.splits ∙ k.splits)
          (omega (arith, j.offset, k.offset, h)) k.no_space in
      omega (arith, skip_spaces-back a j, j.offset, k.offset, reached)

  top_cut : IsCutAt (byte_len text)
  top_cut = record { front = text; back = []; splits = sym (append-nil text); offset = refl }

  IsCutAt-le : (a : ℕ) → IsCutAt a → a ≤ byte_len text
  IsCutAt-le a j =
      let total = ap byte_len j.splits ∙ byte_len-append j.front j.back in
      omega (arith, total, j.offset)

  -- Behind the spaces that follow a boundary, all later boundaries are still ahead.
  later_joints :
      (a : ℕ) (bs : List ℕ)
      → IsCutAt a
      → All (IsJoint text) bs
      → All (λ b. a < b) bs
      → All (λ b. skip_spaces text a ≤ b) bs
  later_joints a [] j joints up = tt
  later_joints a (b ∷ bs) j joints up =
      (skip_spaces-joint a b j joints.0 up.0, later_joints a bs j joints.1 up.1)

  abbrev Returned : Option (List SentenceSpan) → Type 0
  Returned o = (ss : List SentenceSpan) × ((o ≡ some ss) × InOrder u text 0 0 (byte_len text) ss)

  push_sentence-InOrder :
      (ss : List SentenceSpan) (a start b : ℕ)
      → IsCutAt start
      → IsCutAt b
      → a ≤ start
      → start ≤ b
      → InOrder u text 0 0 a ss
      → (pushed : List SentenceSpan) × ((push_sentence u ss text start b ≡ some pushed)
          × InOrder u text 0 0 b pushed)
  unfolding push_sentence
  push_sentence-InOrder ss a start b j k l m h =
      let (raw, cut) = slice_between start b j k m in
      (
        push_slice u ss start b (trim raw),
        (rw (push_sentence, cut) refl, push_slice-InOrder u text ss a start b raw l m cut h),
      )

  split-InOrder :
      (ss : List SentenceSpan) (a start : ℕ) (bs : List ℕ)
      → IsCutAt start
      → a ≤ start
      → All (IsJoint text) bs
      → IsAscending bs
      → All (λ b. start ≤ b) bs
      → InOrder u text 0 0 a ss
      → Returned (split_at_boundaries u text ss start bs)
  unfolding split_at_boundaries
  split-InOrder ss a start [] j l joints up above h =
      elim (Bool-cases (ltb start (byte_len text))) [
        | inl e ↦
            rw (split_at_boundaries, e)
              (push_sentence-InOrder ss a start (byte_len text) j top_cut l (IsCutAt-le start j) h)
        | inr e ↦
            let bound = IsCutAt-le start j in
            rw (split_at_boundaries, e)
              (ss, (refl, raise u text 0 0 a (byte_len text) ss (omega arith) h))
      ]
  split-InOrder ss a start (b ∷ bs) j l joints up above h =
      let k = joint_cut b joints.0 in
      let (pushed, (made, order)) = push_sentence-InOrder ss a start b j k l above.0 h in
      let next =
        split-InOrder pushed b (skip_spaces text b) bs (skip_spaces-IsCutAt b k)
          (omega (arith, skip_spaces-back b k)) joints.1 up.1 (later_joints b bs k joints.1 up.0)
          order in
      rw (split_at_boundaries, made) next

boundaries-IsJoint : (text : Text) → All (IsJoint text) (sentence_boundaries text)
unfolding wiki_heading_spans byte_len
boundaries-IsJoint text =
    boundaries-All (IsJoint text) text (sentence_ends-IsJoint text [] [] text 0 refl refl)
      (heading_spans-IsJoint text (length text) 0 [] text refl refl)

start_cut : (u : Unicode) (text : Text) → IsCutAt u text 0
unfolding byte_len
start_cut u text = record { front = []; back = text; splits = refl; offset = refl }

-- Splitting any text into sentences panics at no slice, whatever the character tables say: it
-- returns sentences that are numbered from 0, each the trimmed slice of the trimmed text between
-- its two byte offsets, each behind the one before it, inside the text, and each long enough, with a
-- letter, and no heading.
pub split_sentences-InOrder :
    (u : Unicode) (text : Text)
    → (ss : List SentenceSpan) × ((split_sentences u text ≡ some ss)
        × InOrder u (trim text) 0 0 (byte_len (trim text)) ss)
unfolding split_sentences
split_sentences-InOrder u text = elim (Bool-cases (is_empty (trim text))) [
  | inl e ↦ rw (split_sentences, e) ([], (refl, omega arith))
  | inr e ↦
      let t : Text = trim text in
      let bs : List ℕ = sentence_boundaries t in
      rw (split_sentences, e)
        (split-InOrder u t [] 0 0 bs (start_cut u t) (omega arith) (boundaries-IsJoint t)
          (boundaries-IsAscending t) (All-mono bs (λ b j. omega arith) (boundaries-IsJoint t))
          (omega arith))
]
