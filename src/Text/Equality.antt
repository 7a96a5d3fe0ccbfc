-- ===== src/Text/Equality.antt =====
-- The Boolean comparison of texts decides their equality.
use talaria_v.Base.{◌≡◌, refl, ◌↔◌, inl, inr, String, true, List, [], ◌∷◌, arith, Bool-cases, Any}
use talaria_v.Text.{Text, codes, text_eq, is, is_one_of}

text_eq→eq : (s t : Text) → text_eq s t ≡ true → s ≡ t
unfolding text_eq
text_eq→eq [] [] h = refl
text_eq→eq (a ∷ s) (b ∷ t) h = ground (arith, text_eq→eq s t)
text_eq→eq [] (b ∷ t) h = cc
text_eq→eq (a ∷ s) [] h = cc

pub text_eq_refl : (s : Text) → text_eq s s ≡ true
unfolding text_eq
text_eq_refl [] = refl
text_eq_refl (a ∷ s) = ground (arith, text_eq_refl s)

pub text_eq_iff : (s t : Text) → (text_eq s t ≡ true) ↔ (s ≡ t)
text_eq_iff s t = (text_eq→eq s t, λ e. rw e (text_eq_refl t))

-- A text is a literal exactly when it is the literal's scalar values.
pub is_iff : (s : Text) (lit : String) → (is s lit ≡ true) ↔ (s ≡ codes lit)
unfolding is
is_iff s lit = text_eq_iff s (codes lit)

-- A text is one of the literals exactly when it is the scalar values of some of them.
pub is_one_of_iff :
    (s : Text) (lits : List String) → (is_one_of s lits ≡ true) ↔ Any (λ lit. s ≡ codes lit) lits
unfolding is_one_of
is_one_of_iff s [] = (λ h. cc, λ h. elim h [ ])
is_one_of_iff s (lit ∷ lits) = elim (Bool-cases (is s lit)) [
  | inl e ↦ (λ h. inl ((is_iff s lit).0 e), λ h. rw e)
  | inr e ↦ (
    λ h. inr ((is_one_of_iff s lits).0 (rw e at h)),
    elim [
      | inl same ↦ absurd (cc (e, (is_iff s lit).1 same))
      | inr later ↦ rw e ((is_one_of_iff s lits).1 later)
    ],
  )
]
