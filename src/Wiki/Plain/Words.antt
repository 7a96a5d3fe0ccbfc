-- ===== src/Wiki/Plain/Words.antt =====
-- The plain text is its words with one space between them.
use talaria_v.Base.{
  ℕ, ◌≡◌, refl, ◌∙◌, true, false, not, List, [], ◌∷◌, ◌++◌, is_empty, keep, All-append, Bool-cases,
  inl, inr,
}
use mathlib.Core.List.{append_assoc, append-nil}
use talaria_v.Text.{
  Text, codes, trim_start_matches, trim_end_matches, is_whitespace, split_from, split_whitespace,
  join,
}
use talaria_v.Wiki.Plain.{collapse_from, collapse_whitespace}
use talaria_v.Wiki.Plain.Steps.{
  IsWord, trim_end, words_from, trim_end-word, trim_end-space, keep-NonEmpty, spaced-join,
  split_from-space, split_from-letter, collapse_from-space, collapse_from-letter,
}

-- Between two words, and inside a word that ends in `c`.
record Collapses (s : Text) : Type 0 where
  between : trim_end (collapse_from true s) ≡ join (words_from [] s) (codes " ")
  inside :
      (w : Text) (c : ℕ)
      → IsWord (w ++ c ∷ [])
      → trim_end ((w ++ c ∷ []) ++ collapse_from false s)
        ≡ join (words_from (w ++ c ∷ []) s) (codes " ")

keep-word :
    (w : Text) (c : ℕ) (ws : List Text)
    → keep (λ v. not (is_empty v)) ((w ++ c ∷ []) ∷ ws)
      ≡ (w ++ c ∷ []) ∷ keep (λ v. not (is_empty v)) ws
keep-word [] c ws = refl
keep-word (d ∷ w) c ws = refl

Collapses-nil : Collapses []
unfolding collapse_from trim_end_matches split_from join
Collapses-nil = record {
  between = refl;
  inside = λ w c h.
      trim_end-word (w ++ c ∷ []) [] h ∙ append-nil (w ++ c ∷ []) ∙ rw (keep-word w c []) refl;
}

inside-space :
    (s w : Text) (c d : ℕ)
    → is_whitespace d ≡ true
    → Collapses s
    → IsWord (w ++ c ∷ [])
    → trim_end ((w ++ c ∷ []) ++ collapse_from false (d ∷ s))
      ≡ join (words_from (w ++ c ∷ []) (d ∷ s)) (codes " ")
inside-space s w c d h k word =
    rw
      (
        split_from-space (w ++ c ∷ []) s d h,
        collapse_from-space false d s h,
        trim_end-word (w ++ c ∷ []) (b' ' ∷ collapse_from true s) word,
        trim_end-space (collapse_from true s),
        k.between,
        keep-word w c (split_from is_whitespace [] s),
      )
      (spaced-join (words_from [] s) (keep-NonEmpty (split_from is_whitespace [] s)) (w ++ c ∷ []))

Collapses-space : (s : Text) (d : ℕ) → is_whitespace d ≡ true → Collapses s → Collapses (d ∷ s)
Collapses-space s d h k = record {
  between = rw (collapse_from-space true d s h, split_from-space [] s d h) k.between;
  inside = λ w c word. inside-space s w c d h k word;
}

Collapses-letter : (s : Text) (d : ℕ) → is_whitespace d ≡ false → Collapses s → Collapses (d ∷ s)
Collapses-letter s d h k = record {
  between =
      rw (collapse_from-letter true d s h, split_from-letter [] s d h) (k.inside [] d (h, tt));
  inside = λ w c word.
      rw
        (
          collapse_from-letter false d s h,
          split_from-letter (w ++ c ∷ []) s d h,
          ← append_assoc (w ++ c ∷ []) (d ∷ []) (collapse_from false s),
        )
        (k.inside (w ++ c ∷ []) d
          (All-append (λ e. is_whitespace e ≡ false) (w ++ c ∷ []) (d ∷ []) word (h, tt)));
}

all-Collapses : (s : Text) → Collapses s
all-Collapses [] = Collapses-nil
all-Collapses (c ∷ s) = elim (Bool-cases (is_whitespace c)) [
  | inl h ↦ Collapses-space s c h (all-Collapses s)
  | inr h ↦ Collapses-letter s c h (all-Collapses s)
]

space_is_whitespace : is_whitespace b' ' ≡ true
unfolding is_whitespace
space_is_whitespace = refl

trim_start-empty : trim_start_matches is_whitespace (collapse_from true []) ≡ collapse_from true []
unfolding trim_start_matches collapse_from
trim_start-empty = refl

front-empty :
    trim_end (trim_start_matches is_whitespace (collapse_from false []))
    ≡ join (words_from [] []) (codes " ")
unfolding trim_start_matches trim_end_matches collapse_from split_from join
front-empty = refl

trim_start-space :
    (c : ℕ) (t : Text)
    → is_whitespace c ≡ true
    → trim_start_matches is_whitespace (c ∷ t) ≡ trim_start_matches is_whitespace t
unfolding trim_start_matches
trim_start-space c t h = rw (trim_start_matches, h) refl

trim_start-letter :
    (c : ℕ) (t : Text) → is_whitespace c ≡ false → trim_start_matches is_whitespace (c ∷ t) ≡ c ∷ t
unfolding trim_start_matches
trim_start-letter c t h = rw (trim_start_matches, h) refl

-- Behind a space the text begins with a word.
trim_start-collapsed :
    (t : Text) → trim_start_matches is_whitespace (collapse_from true t) ≡ collapse_from true t
trim_start-collapsed [] = trim_start-empty
trim_start-collapsed (c ∷ t) = elim (Bool-cases (is_whitespace c)) [
  | inl h ↦ rw (collapse_from-space true c t h) (trim_start-collapsed t)
  | inr h ↦ rw (collapse_from-letter true c t h) (trim_start-letter c (collapse_from false t) h)
]

front :
    (s : Text)
    → trim_end (trim_start_matches is_whitespace (collapse_from false s))
      ≡ join (words_from [] s) (codes " ")
front [] = front-empty
front (c ∷ s) = elim (Bool-cases (is_whitespace c)) [
  | inl h ↦
      rw
        (
          collapse_from-space false c s h,
          split_from-space [] s c h,
          trim_start-space b' ' (collapse_from true s) space_is_whitespace,
          trim_start-collapsed s,
        )
        (all-Collapses s).between
  | inr h ↦
      rw
        (
          collapse_from-letter false c s h,
          split_from-letter [] s c h,
          trim_start-letter c (collapse_from false s) h,
        )
        ((all-Collapses s).inside [] c (h, tt))
]

-- Collapsing the white space of a text joins its words, in order, with one space: no white space but
-- these spaces is left, none of them at either end.
pub collapse_whitespace-words :
    (s : Text) → collapse_whitespace s ≡ join (split_whitespace s) (codes " ")
unfolding collapse_whitespace split_whitespace
collapse_whitespace-words s = front s
