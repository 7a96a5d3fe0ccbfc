-- ===== src/Gates/Codes/Laws.antt =====
-- Codes are read back from their names, and `retain_first` keeps each code that occurs once.
use talaria_v.Base.{
  ◌≡◌, refl, ◌↔◌, true, false, not, ◌&&◌, ◌||◌, List, [], ◌∷◌, ◌++◌, some, arith, Bool-cases, inl,
  inr,
}
use talaria_v.Gates.Codes.{
  RejectionCode, cross_clause_join, as_str, parse, discriminant, same_code, contains_code,
  retain_first,
}

-- Each code is read back from its name.
pub parse-as_str : (c : RejectionCode) → parse (as_str c) ≡ some c
unfolding parse as_str
parse-as_str cross_clause_join = refl
parse-as_str _ = refl

discriminant-injective : (c d : RejectionCode) → discriminant c ≡ discriminant d → c ≡ d
unfolding discriminant
discriminant-injective c d e = ground arith

pub same_code_iff : (c d : RejectionCode) → (same_code c d ≡ true) ↔ (c ≡ d)
unfolding same_code
same_code_iff c d = (λ e. discriminant-injective c d (ground arith), λ e. rw e (ground arith))

pub contains_code-append :
    (cs ds : List RejectionCode) (c : RejectionCode)
    → contains_code (cs ++ ds) c ≡ (contains_code cs c || contains_code ds c)
unfolding contains_code
contains_code-append [] ds c = refl
contains_code-append (d ∷ cs) ds c = ground (arith, contains_code-append cs ds c)

-- Whether a code is among those kept depends only on whether it is seen already or occurs.
pub contains_code-retain_first :
    (seen cs : List RejectionCode) (c : RejectionCode)
    → contains_code (retain_first seen cs) c ≡ (not (contains_code seen c) && contains_code cs c)
unfolding contains_code retain_first
contains_code-retain_first seen [] c = ground arith
contains_code-retain_first seen (d ∷ cs) c = ground (
  arith,
  contains_code-retain_first seen cs c,
  contains_code-retain_first (d ∷ seen) cs c,
  same_code_iff d c,
)

-- No code occurs twice.
abbrev pub Distinct : List RejectionCode → Type 0
Distinct [] = Unit
Distinct (c ∷ cs) = (contains_code cs c ≡ false) × Distinct cs

retain_first-seen :
    (seen cs : List RejectionCode) (c : RejectionCode)
    → contains_code (retain_first (c ∷ seen) cs) c ≡ false
unfolding contains_code
retain_first-seen seen cs c =
    ground (arith, contains_code-retain_first (c ∷ seen) cs c, same_code_iff c c)

pub retain_first-Distinct : (seen cs : List RejectionCode) → Distinct (retain_first seen cs)
unfolding retain_first
retain_first-Distinct seen [] = tt
retain_first-Distinct seen (c ∷ cs) = elim (Bool-cases (contains_code seen c)) [
  | inl old ↦ rw old (retain_first-Distinct seen cs)
  | inr new ↦ rw new (retain_first-seen seen cs c, retain_first-Distinct (c ∷ seen) cs)
]
