-- ===== src/Time/Key.antt =====
-- The canonical key of a time determines the time up to its surface.
use talaria_v.Base.{
  ℕ, suc, ◌≡◌, refl, sym, ap, subst, ◌≢◌, ◌↔◌, [], ◌∷◌, ◌++◌, arith, ℤ, pos, negsuc, unwrap_or, All,
  All-mono, drop,
}
use talaria_v.Text.{Text, codes}
use talaria_v.Text.Separator.{Lacks, append_sep-injective}
use talaria_v.Text.Decimal.{show_nat, show_int}
use talaria_v.Text.Decimal.Laws.{IsDigit, show_nat-IsDigit, show_nat-injective}
use talaria_v.Time.{TypedTime, exact, range, approx, unknown, canonical_key}

-- The same kind, years, month and day, where an absent month or day counts as zero; the surface
-- does not count.
abbrev pub SameMoment : TypedTime → TypedTime → Type 0
SameMoment (exact y m d s) (exact y' m' d' s') =
    (y ≡ y') × (unwrap_or m 0 ≡ unwrap_or m' 0) × (unwrap_or d 0 ≡ unwrap_or d' 0)
SameMoment (range a b s) (range a' b' s') = (a ≡ a') × (b ≡ b')
SameMoment (approx y s) (approx y' s') = y ≡ y'
SameMoment (unknown s) (unknown s') = Unit
SameMoment _ _ = ⊥

pub show_nat-Lacks_bar : (n : ℕ) → Lacks b'|' (show_nat n)
show_nat-Lacks_bar n = All-mono (show_nat n) (λ c d. omega arith) (show_nat-IsDigit n)

pub show_int-Lacks_bar : (y : ℤ) → Lacks b'|' (show_int y)
unfolding show_int
show_int-Lacks_bar (pos n) = show_nat-Lacks_bar n
show_int-Lacks_bar (negsuc n) = (omega arith, show_nat-Lacks_bar (suc n))

digits_lack_colon : (s : Text) → All IsDigit s → Lacks b':' s
digits_lack_colon s h = All-mono s (λ c d. omega arith) h

pub show_nat-Lacks_colon : (n : ℕ) → Lacks b':' (show_nat n)
show_nat-Lacks_colon n = digits_lack_colon (show_nat n) (show_nat-IsDigit n)

pub show_int-Lacks_colon : (y : ℤ) → Lacks b':' (show_int y)
unfolding show_int
show_int-Lacks_colon (pos n) = show_nat-Lacks_colon n
show_int-Lacks_colon (negsuc n) = (omega arith, show_nat-Lacks_colon (suc n))

digit_ne_minus : (m n : ℕ) → show_nat m ≢ b'-' ∷ show_nat n
digit_ne_minus m n e =
    let digits = subst (All IsDigit) e (show_nat-IsDigit m) in omega (arith, digits.0)

show_int-injective : (x y : ℤ) → show_int x ≡ show_int y → x ≡ y
unfolding show_int
show_int-injective (pos m) (pos n) e = ap pos (show_nat-injective m n e)
show_int-injective (pos m) (negsuc n) e = absurd (digit_ne_minus m (suc n) e)
show_int-injective (negsuc m) (pos n) e = absurd (digit_ne_minus n (suc m) (sym e))
show_int-injective (negsuc m) (negsuc n) e =
    let same = show_nat-injective (suc m) (suc n) (ap (drop 1) e) in ap negsuc (omega arith)

exact_key-injective :
    (x y : ℤ) (m n d c : ℕ)
    → show_int x ++ b':' ∷ (show_nat m ++ b':' ∷ show_nat d)
      ≡ show_int y ++ b':' ∷ (show_nat n ++ b':' ∷ show_nat c)
    → (x ≡ y) × (m ≡ n) × (d ≡ c)
exact_key-injective x y m n d c e =
    let years =
      append_sep-injective b':' (show_int x) (show_int y) (show_int-Lacks_colon x)
        (show_int-Lacks_colon y) e in
    let months =
      append_sep-injective b':' (show_nat m) (show_nat n) (show_nat-Lacks_colon m)
        (show_nat-Lacks_colon n) years.1 in
    (
      show_int-injective x y years.0,
      show_nat-injective m n months.0,
      show_nat-injective d c months.1,
    )

range_key-injective :
    (x y a b : ℤ)
    → show_int x ++ b':' ∷ show_int a ≡ show_int y ++ b':' ∷ show_int b
    → (x ≡ y) × (a ≡ b)
range_key-injective x y a b e =
    let years =
      append_sep-injective b':' (show_int x) (show_int y) (show_int-Lacks_colon x)
        (show_int-Lacks_colon y) e in
    (show_int-injective x y years.0, show_int-injective a b years.1)

-- The four kinds begin with different letters.
abbrev head_code : Text → ℕ
head_code [] = 0
head_code (c ∷ s) = c

key→moment : (t u : TypedTime) → canonical_key t ≡ canonical_key u → SameMoment t u
unfolding canonical_key codes
key→moment (exact y m d s) (exact y' m' d' s') e =
    exact_key-injective y y' (unwrap_or m 0) (unwrap_or m' 0) (unwrap_or d 0) (unwrap_or d' 0)
      (ap (drop 6) e)
key→moment (range a b s) (range a' b' s') e = range_key-injective a a' b b' (ap (drop 6) e)
key→moment (approx y s) (approx y' s') e = show_int-injective y y' (ap (drop 7) e)
key→moment (unknown s) (unknown s') e = tt
key→moment t u e = absurd (omega (arith, ap head_code e))

moment→key : (t u : TypedTime) → SameMoment t u → canonical_key t ≡ canonical_key u
unfolding canonical_key
moment→key (exact y m d s) (exact y' m' d' s') h = rw (h.0, h.1, h.2)
moment→key (range a b s) (range a' b' s') h = rw (h.0, h.1)
moment→key (approx y s) (approx y' s') h = rw h
moment→key (unknown s) (unknown s') h = refl
moment→key t u h = absurd h

-- Two times have the same canonical key exactly when they are the same moment: the same kind, the
-- same years, and the same month and day, an absent one counting as zero; the surface is free.
pub canonical_key_iff : (t u : TypedTime) → (canonical_key t ≡ canonical_key u) ↔ SameMoment t u
canonical_key_iff t u = (key→moment t u, moment→key t u)
