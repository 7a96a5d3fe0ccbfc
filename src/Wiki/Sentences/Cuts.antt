-- ===== src/Wiki/Sentences/Cuts.antt =====
-- The spaces behind a boundary end before the next one.
use talaria_v.Base.{
  ℕ, ◌+◌, ◌≡◌, refl, sym, ◌∙◌, ap, subst, ◌<◌, ◌≤◌, ◌⊎◌, inl, inr, [], ◌∷◌, ◌++◌, ◌==◌, arith, tail,
  take,
}
use talaria_v.Text.{Text, byte_len, utf8_width}
use talaria_v.Wiki.Sections.Offsets.{byte_len-append}
use talaria_v.Wiki.Sentences.{count_while}
use talaria_v.Wiki.Sentences.Boundaries.{StartsNoSpace, EndsNoSpace}

abbrev first_or : ℕ → Text → ℕ
first_or d [] = d
first_or d (c ∷ s) = c

byte_len-cons_nil : (c : ℕ) (p : Text) → byte_len (c ∷ p) ≤ byte_len [] → ⊥
unfolding byte_len utf8_width
byte_len-cons_nil c p h = ground (arith, h)

byte_len-cons_le :
    (c d : ℕ) (p r : Text) → c ≡ d → byte_len (c ∷ p) ≤ byte_len (d ∷ r) → byte_len p ≤ byte_len r
unfolding byte_len
byte_len-cons_le c d p r e h = let same = ap utf8_width e in omega (arith, same)

-- Of two ways to cut a text, the later one cuts what the earlier one leaves.
pub cut_later :
    (p q r s : Text)
    → p ++ q ≡ r ++ s
    → byte_len p ≤ byte_len r
    → (m : Text) × ((r ≡ p ++ m) × (q ≡ m ++ s))
cut_later [] q r s e h = (r, (refl, e))
cut_later (c ∷ p) q [] s e h = absurd (byte_len-cons_nil c p h)
cut_later (c ∷ p) q (d ∷ r) s e h =
    let same : c ≡ d = ap (first_or 0) e in
    let (m, (f, g)) = cut_later p q r s (ap tail e) (byte_len-cons_le c d p r same h) in
    (m, (cc (same, f), g))

abbrev pub spaces : Text → ℕ
spaces s = count_while (λ c. c == b' ') s

-- A space is one byte.
pub byte_len-spaces : (s : Text) → byte_len (take (spaces s) s) ≡ spaces s
unfolding count_while byte_len utf8_width
byte_len-spaces [] = refl
byte_len-spaces (c ∷ s) = ground (arith, byte_len-spaces s)

spaces_before : (m q : Text) → StartsNoSpace q → spaces (m ++ q) ≤ byte_len m
unfolding count_while byte_len utf8_width
spaces_before [] [] h = absurd h
spaces_before [] (c ∷ q) h = ground (arith, h)
spaces_before (c ∷ m) q h = ground (arith, spaces_before m q h)

spaces_inside : (m q : Text) → EndsNoSpace m → spaces (m ++ q) ≤ byte_len m
unfolding count_while byte_len utf8_width
spaces_inside [] q h = absurd h
spaces_inside (c ∷ []) q h = ground (arith, h)
spaces_inside (c ∷ d ∷ m) q h = ground (arith, spaces_inside (d ∷ m) q h)

EndsNoSpace-back : (p m : Text) → 0 < byte_len m → EndsNoSpace (p ++ m) → EndsNoSpace m
unfolding byte_len
EndsNoSpace-back [] m l h = h
EndsNoSpace-back (c ∷ p) [] l h = absurd (omega arith)
EndsNoSpace-back (c ∷ []) (d ∷ m) l h = h
EndsNoSpace-back (c ∷ e ∷ p) (d ∷ m) l h = EndsNoSpace-back (e ∷ p) (d ∷ m) l h

-- The spaces behind a cut end before the next joint.
pub spaces_to_joint :
    (p q r s : Text)
    → p ++ q ≡ r ++ s
    → byte_len p < byte_len r
    → StartsNoSpace s ⊎ EndsNoSpace r
    → byte_len p + spaces q ≤ byte_len r
spaces_to_joint p q r s e h side =
    let (m, (f, g)) = cut_later p q r s e (omega arith) in
    let total : byte_len r ≡ byte_len p + byte_len m = ap byte_len f ∙ byte_len-append p m in
    let within : spaces q ≤ byte_len m =
      subst (λ t. spaces t ≤ byte_len m) (sym g)
        (elim side [
          | inl starts ↦ spaces_before m s starts
          | inr ends ↦
              spaces_inside m s (EndsNoSpace-back p m (omega arith) (subst EndsNoSpace f ends))
        ]) in
    omega arith
