-- ===== src/Assertion/Order.antt =====
-- The competing places are listed in order, each once.
use talaria_v.Base.{
  ◌≡◌, refl, inl, inr, Bool, true, false, not, ◌&&◌, List, [], ◌∷◌, ◌++◌, Option, none, some,
  is_empty, arith, Bool-cases, All, All-mono, subst, sym, if◌then◌else◌,
}
use talaria_v.Base.Sort.{sort_by, IsSorted, sort_by-IsSorted}
use talaria_v.Text.{Text, text_eq}
use talaria_v.Text.Equality.{text_eq_iff}
use talaria_v.Text.Unicode.{Unicode}
use talaria_v.Identity.{text_le}
use talaria_v.Assertion.{place_key, rivals, competing_places, dedup_texts}

text_le_total : (s t : Text) → text_le s t ≡ false → text_le t s ≡ true
unfolding text_le
text_le_total [] t h = ground arith
text_le_total (a ∷ s) [] h = refl
text_le_total (a ∷ s) (b ∷ t) h = ground (arith, text_le_total s t)

text_le_trans : (s t r : Text) → text_le s t ≡ true → text_le t r ≡ true → text_le s r ≡ true
unfolding text_le
text_le_trans [] t r h k = refl
text_le_trans (a ∷ s) [] r h k = ground arith
text_le_trans (a ∷ s) (b ∷ t) [] h k = ground arith
text_le_trans (a ∷ s) (b ∷ t) (c ∷ r) h k = ground (arith, text_le_trans s t r)

text_le_antisym : (s t : Text) → text_le s t ≡ true → text_le t s ≡ true → text_eq s t ≡ true
unfolding text_le text_eq
text_le_antisym [] [] h k = refl
text_le_antisym [] (b ∷ t) h k = ground arith
text_le_antisym (a ∷ s) [] h k = ground arith
text_le_antisym (a ∷ s) (b ∷ t) h k = ground (arith, text_le_antisym s t)

-- The text comes before the other, and is another one.
abbrev text_lt : Text → Text → Bool
text_lt s t = text_le s t && not (text_eq s t)

-- Each text is before every later one.
abbrev pub IsAscending : List Text → Type 0
IsAscending = IsSorted text_lt

text_lt_le_trans : (s t r : Text) → text_lt s t ≡ true → text_le t r ≡ true → text_lt s r ≡ true
text_lt_le_trans s t r h k = elim (Bool-cases (text_eq s r)) [
  | inl same ↦
      let back : text_le t s ≡ true =
        subst (λ x. text_le t x ≡ true) (sym ((text_eq_iff s r).0 same)) k in
      ground (arith, text_le_antisym s t, back)
  | inr apart ↦ ground (arith, text_le_trans s t r)
]

dedup_texts-All : (P : Text → Type 0) (ts : List Text) → All P ts → All P (dedup_texts ts)
unfolding dedup_texts
dedup_texts-All P [] h = tt
dedup_texts-All P (s ∷ []) h = h
dedup_texts-All P (s ∷ t ∷ ts) h = elim (Bool-cases (text_eq s t)) [
  | inl same ↦ rw same (dedup_texts-All P (t ∷ ts) h.1)
  | inr apart ↦ rw apart (h.0, dedup_texts-All P (t ∷ ts) h.1)
]

dedup_texts-IsAscending : (ts : List Text) → IsSorted text_le ts → IsAscending (dedup_texts ts)
unfolding dedup_texts
dedup_texts-IsAscending [] h = tt
dedup_texts-IsAscending (s ∷ []) h = (tt, tt)
dedup_texts-IsAscending (s ∷ t ∷ ts) h = elim (Bool-cases (text_eq s t)) [
  | inl same ↦ rw same (dedup_texts-IsAscending (t ∷ ts) h.1)
  | inr apart ↦
      let before : text_lt s t ≡ true = ground (arith, h.0.0) in
      let later : All (λ r. text_lt s r ≡ true) (t ∷ ts) =
        (before, All-mono ts (λ r le. text_lt_le_trans s t r before le) h.1.0) in
      rw apart (dedup_texts-All _ (t ∷ ts) later, dedup_texts-IsAscending (t ∷ ts) h.1)
]

chosen :
    (b c : Bool) {ts places : List Text}
    → (if b then none else if c then none else some ts) ≡ some places
    → ts ≡ places
chosen true c e = ground arith
chosen false true e = ground arith
chosen false false e = ground arith

module _ (u : Unicode) where
  -- The competing places are listed in strictly ascending order, so none occurs twice.
  pub competing_places-IsAscending :
      (incoming : Option Text) (existing : List (Option Text)) (places : List Text)
      → competing_places u incoming existing ≡ some places
      → IsAscending places
  unfolding competing_places
  competing_places-IsAscending incoming existing places e =
      let all_places = rivals u (place_key u incoming) existing ++ place_key u incoming ∷ [] in
      let sorted = sort_by-IsSorted text_le text_le_total text_le_trans all_places in
      let listed = dedup_texts-IsAscending (sort_by text_le all_places) sorted in
      subst IsAscending
        (chosen (is_empty (place_key u incoming))
          (is_empty (rivals u (place_key u incoming) existing)) e)
        listed
