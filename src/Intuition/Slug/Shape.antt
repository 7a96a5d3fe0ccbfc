-- ===== src/Intuition/Slug/Shape.antt =====
-- The shape of a normalized slug fragment, which normalizing again keeps.
use talaria_v.Base.{
  ℕ, ◌<◌, ◌≤◌, ◌≡◌, refl, ◌≢◌, ◌⊎◌, inl, inr, Bool, true, false, [], ◌∷◌, ◌&&◌, arith,
  if◌then◌else◌, is_empty, All, sym, subst,
}
use talaria_v.Text.{
  Text, codes, is_ascii_alphanumeric, to_ascii_lower, to_ascii_lowercase, trim_start_matches,
  trim_end_matches,
}
use talaria_v.Text.Unicode.{Unicode}
use talaria_v.Intuition.Slug.{
  Transliteration, squash, is_hyphen, trim_hyphens, normalize_slug_fragment,
}

-- A letter from a to z, or a digit.
abbrev pub IsSlugChar : ℕ → Type 0
IsSlugChar c = ((b'a' ≤ c) × (c ≤ b'z')) ⊎ ((b'0' ≤ c) × (c ≤ b'9'))

-- Letters, digits and single hyphens, behind a hyphen or not; `end` is what holds at the end.
abbrev Joined : (Bool → Type 0) → Bool → Text → Type 0
Joined end prev [] = end prev
Joined end prev (c ∷ s) =
    (IsSlugChar c × Joined end false s) ⊎ ((c ≡ b'-') × (prev ≡ false) × Joined end true s)

abbrev Anywhere : Bool → Type 0
Anywhere prev = Unit

-- No hyphen at the end.
abbrev AfterChar : Bool → Type 0
AfterChar prev = prev ≡ false

-- A fragment has a letter or digit, only those and single hyphens, and a hyphen at neither end.
abbrev pub IsSlug : Text → Type 0
IsSlug s = (s ≢ []) × Joined AfterChar true s

-- No capital letter of ASCII.
abbrev IsLow : ℕ → Type 0
IsLow c = is_ascii_alphanumeric c ≡ true → IsSlugChar c

to_ascii_lowercase-IsLow : (s : Text) → All IsLow (to_ascii_lowercase s)
unfolding to_ascii_lowercase is_ascii_alphanumeric
to_ascii_lowercase-IsLow [] = tt
to_ascii_lowercase-IsLow (c ∷ s) = (λ h. ground arith, to_ascii_lowercase-IsLow s)

choose :
    {A : Type 0} (P : A → Type 0) (b : Bool) (x y : A)
    → (b ≡ true → P x)
    → (b ≡ false → P y)
    → P (if b then x else y)
choose P true x y h k = h refl
choose P false x y h k = k refl

squash-Joined : (prev : Bool) (s : Text) → All IsLow s → Joined Anywhere prev (squash prev s)
unfolding squash
squash-Joined prev [] h = tt
squash-Joined prev (c ∷ s) h =
    choose (Joined Anywhere prev) (is_ascii_alphanumeric c) _ _
      (λ kept. inl (h.0 kept, squash-Joined false s h.1))
      (λ other.
        choose (Joined Anywhere prev) prev (squash true s) (b'-' ∷ squash true s)
          (λ again. rw again (squash-Joined true s h.1))
          (λ fresh. inr (refl, fresh, squash-Joined true s h.1)))

after_start : (prev : Bool) (s : Text) → Joined Anywhere true s → Joined Anywhere prev s
after_start prev [] h = tt
after_start prev (c ∷ s) (inl h) = inl h
after_start prev (c ∷ s) (inr h) = cc (h.1)

no_hyphen : (c : ℕ) → IsSlugChar c → is_hyphen c ≡ false
no_hyphen c h = ground arith

trim_start_at : (s : Text) → Joined Anywhere true s → trim_start_matches is_hyphen s ≡ s
unfolding trim_start_matches
trim_start_at [] h = refl
trim_start_at (c ∷ s) (inl h) = rw (no_hyphen c h.0) refl
trim_start_at (c ∷ s) (inr h) = cc (h.1)

trim_start-Joined :
    (s : Text) → Joined Anywhere false s → Joined Anywhere true (trim_start_matches is_hyphen s)
unfolding trim_start_matches
trim_start-Joined [] h = tt
trim_start-Joined (c ∷ s) (inl h) = rw (no_hyphen c h.0) (inl h)
trim_start-Joined (c ∷ s) (inr h) =
    choose (Joined Anywhere true) (is_hyphen c) _ _
      (λ e. subst (Joined Anywhere true) (sym (trim_start_at s h.2)) h.2)
      (λ e. absurd (ground (arith, e, h.0)))

-- What is left is empty, or ends in no hyphen.
abbrev Cut : Bool → Text → Type 0
Cut prev s = (s ≡ []) ⊎ ((s ≢ []) × Joined AfterChar prev s)

Cut-step :
    (prev : Bool) (c : ℕ) (rest : Text)
    → (IsSlugChar c × Cut false rest) ⊎ ((c ≡ b'-') × (prev ≡ false) × Cut true rest)
    → Cut prev (if is_hyphen c && is_empty rest then [] else c ∷ rest)
Cut-step prev c [] (inl (char, d)) = rw (no_hyphen c char) (inr ((λ e. cc e), inl (char, refl)))
Cut-step prev c [] (inr (hyphen, before, d)) = rw hyphen (inl refl)
Cut-step prev c (r ∷ rest) (inl (char, inl d)) = cc d
Cut-step prev c (r ∷ rest) (inl (char, inr d)) =
    rw (no_hyphen c char) (inr ((λ e. cc e), inl (char, d.1)))
Cut-step prev c (r ∷ rest) (inr (hyphen, before, inl d)) = cc d
Cut-step prev c (r ∷ rest) (inr (hyphen, before, inr d)) =
    rw hyphen (inr ((λ e. cc e), inr (refl, before, d.1)))

trim_end-Joined :
    (prev : Bool) (s : Text) → Joined Anywhere prev s → Cut prev (trim_end_matches is_hyphen s)
unfolding trim_end_matches
trim_end-Joined prev [] h = inl refl
trim_end-Joined prev (c ∷ s) (inl (char, rest)) =
    Cut-step prev c (trim_end_matches is_hyphen s) (inl (char, trim_end-Joined false s rest))
trim_end-Joined prev (c ∷ s) (inr (hyphen, before, rest)) =
    Cut-step prev c (trim_end_matches is_hyphen s)
      (inr (hyphen, before, trim_end-Joined true s rest))

squash-slug : (prev : Bool) (s : Text) → Joined AfterChar prev s → squash prev s ≡ s
unfolding squash is_ascii_alphanumeric
squash-slug prev [] h = refl
squash-slug prev (c ∷ s) (inl (char, rest)) = ground (arith, squash-slug false s rest)
squash-slug prev (c ∷ s) (inr (hyphen, before, rest)) = ground (arith, squash-slug true s rest)

or_x : (s : Text) → Cut true s → IsSlug (if is_empty s then codes "x" else s)
unfolding codes
or_x [] h = ((λ e. cc e), inl (inl (omega arith, omega arith), refl))
or_x (c ∷ s) (inl h) = cc h
or_x (c ∷ s) (inr h) = h

slug_is_ascii : (prev : Bool) (s : Text) → Joined AfterChar prev s → All (λ c. c < 128) s
slug_is_ascii prev [] h = tt
slug_is_ascii prev (c ∷ s) (inl (char, rest)) = (ground (arith, char), slug_is_ascii false s rest)
slug_is_ascii prev (c ∷ s) (inr (hyphen, before, rest)) =
    (omega (arith, hyphen), slug_is_ascii true s rest)

slug_lower : (prev : Bool) (s : Text) → Joined AfterChar prev s → to_ascii_lowercase s ≡ s
unfolding to_ascii_lowercase to_ascii_lower
slug_lower prev [] h = refl
slug_lower prev (c ∷ s) (inl (char, rest)) = ground (arith, char, slug_lower false s rest)
slug_lower prev (c ∷ s) (inr (hyphen, before, rest)) =
    ground (arith, hyphen, slug_lower true s rest)

slug_trim_end :
    (prev : Bool) (s : Text) → Joined AfterChar prev s → trim_end_matches is_hyphen s ≡ s
unfolding trim_end_matches
slug_trim_end prev [] h = refl
slug_trim_end prev (c ∷ s) (inl (char, rest)) =
    rw (slug_trim_end false s rest, no_hyphen c char) refl
slug_trim_end prev (c ∷ []) (inr (hyphen, before, rest)) = cc rest
slug_trim_end prev (c ∷ d ∷ s) (inr (hyphen, before, rest)) =
    rw (slug_trim_end true (d ∷ s) rest) (ground arith)

Joined-false : (s : Text) → Joined AfterChar true s → Joined AfterChar false s
Joined-false [] h = refl
Joined-false (c ∷ s) (inl h) = inl h
Joined-false (c ∷ s) (inr h) = inr (h.0, refl, h.2)

slug_trim_start : (s : Text) → Joined AfterChar true s → trim_start_matches is_hyphen s ≡ s
unfolding trim_start_matches
slug_trim_start [] h = refl
slug_trim_start (c ∷ s) (inl h) = rw (no_hyphen c h.0) refl
slug_trim_start (c ∷ s) (inr h) = cc (h.1)

slug_kept : (s : Text) → IsSlug s → (if is_empty s then codes "x" else s) ≡ s
slug_kept [] h = absurd (h.0 refl)
slug_kept (c ∷ s) h = refl

module _ (u : Unicode) (t : Transliteration) where
  normalized : (raw : Text) → IsSlug (normalize_slug_fragment u t raw)
  unfolding normalize_slug_fragment trim_hyphens
  normalized raw =
      let low =
        subst (All IsLow) (sym (u.to_lowercase_ascii (t.deunicode raw) (t.deunicode_is_ascii raw)))
          (to_ascii_lowercase-IsLow (t.deunicode raw)) in
      or_x _ (trim_end-Joined true _ (trim_start-Joined _ (squash-Joined false _ low)))

  slug_is_normal : (s : Text) → IsSlug s → normalize_slug_fragment u t s ≡ s
  unfolding normalize_slug_fragment trim_hyphens
  slug_is_normal s h =
      let ascii = slug_is_ascii true s h.1 in
      rw
        (
          t.deunicode_ascii s ascii,
          u.to_lowercase_ascii s ascii,
          slug_lower true s h.1,
          squash-slug false s (Joined-false s h.1),
          slug_trim_start s h.1,
          slug_trim_end true s h.1,
        )
        (slug_kept s h)

  -- A normalized fragment, whatever the text, is not empty, has only letters from a to z, digits and
  -- single hyphens, and a hyphen at neither end; normalizing it again keeps it.
  pub normalize_slug_fragment-IsSlug :
      (raw : Text)
      → IsSlug (normalize_slug_fragment u t raw)
        × (normalize_slug_fragment u t (normalize_slug_fragment u t raw)
            ≡ normalize_slug_fragment u t raw)
  normalize_slug_fragment-IsSlug raw =
      (normalized raw, slug_is_normal (normalize_slug_fragment u t raw) (normalized raw))
