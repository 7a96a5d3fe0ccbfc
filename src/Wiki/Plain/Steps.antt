-- ===== src/Wiki/Plain/Steps.antt =====
-- One step of the collapsing of white space, and of splitting at it.
use talaria_v.Base.{
  ℕ, ◌≡◌, refl, sym, Bool, true, false, not, List, [], ◌∷◌, ◌++◌, if◌then◌else◌, is_empty, keep,
  All, arith,
}
use mathlib.Core.List.{append-nil}
use talaria_v.Text.{Text, codes, trim_end_matches, is_whitespace, split_from, join}
use talaria_v.Wiki.Plain.{collapse_from}

abbrev pub IsWord : Text → Type 0
IsWord w = All (λ c. is_whitespace c ≡ false) w

abbrev pub trim_end : Text → Text
trim_end s = trim_end_matches is_whitespace s

abbrev pub words_from : Text → Text → List Text
words_from cur s = keep (λ w. not (is_empty w)) (split_from is_whitespace cur s)

-- A space before a text that has something.
abbrev pub spaced : Text → Text
spaced t = if is_empty t then [] else b' ' ∷ t

pub trim_end-word : (w t : Text) → IsWord w → trim_end (w ++ t) ≡ w ++ trim_end t
unfolding trim_end_matches
trim_end-word [] t h = refl
trim_end-word (c ∷ w) t h = ground (arith, h.0, trim_end-word w t h.1)

pub trim_end-space : (t : Text) → trim_end (b' ' ∷ t) ≡ spaced (trim_end t)
unfolding trim_end_matches is_whitespace
trim_end-space t = refl

pub join-spaced :
    (w : Text) (ws : List Text)
    → All (λ v. is_empty v ≡ false) ws
    → join (w ∷ ws) (codes " ") ≡ w ++ spaced (join ws (codes " "))
unfolding join codes
join-spaced w [] h = sym (append-nil w)
join-spaced w ([] ∷ ws) h = absurd (ground (arith, h))
join-spaced w ((c ∷ v) ∷ []) h = refl
join-spaced w ((c ∷ v) ∷ x ∷ ws) h = refl

pub keep-NonEmpty :
    (ws : List Text) → All (λ v. is_empty v ≡ false) (keep (λ w. not (is_empty w)) ws)
keep-NonEmpty [] = tt
keep-NonEmpty ([] ∷ ws) = keep-NonEmpty ws
keep-NonEmpty ((c ∷ w) ∷ ws) = (refl, keep-NonEmpty ws)

pub spaced-join :
    (ws : List Text)
    → All (λ v. is_empty v ≡ false) ws
    → (w : Text) → w ++ spaced (join ws (codes " ")) ≡ join (w ∷ ws) (codes " ")
spaced-join ws h w = sym (join-spaced w ws h)

pub split_from-space :
    (cur s : Text) (c : ℕ)
    → is_whitespace c ≡ true
    → split_from is_whitespace cur (c ∷ s) ≡ cur ∷ split_from is_whitespace [] s
unfolding split_from
split_from-space cur s c h = rw (split_from, h) refl

pub split_from-letter :
    (cur s : Text) (c : ℕ)
    → is_whitespace c ≡ false
    → split_from is_whitespace cur (c ∷ s) ≡ split_from is_whitespace (cur ++ c ∷ []) s
unfolding split_from
split_from-letter cur s c h = rw (split_from, h) refl

pub collapse_from-space :
    (prev : Bool) (c : ℕ) (s : Text)
    → is_whitespace c ≡ true
    → collapse_from prev (c ∷ s)
      ≡ (if prev then collapse_from true s else b' ' ∷ collapse_from true s)
unfolding collapse_from
collapse_from-space true c s h = rw (collapse_from, h) refl
collapse_from-space false c s h = rw (collapse_from, h) refl

pub collapse_from-letter :
    (prev : Bool) (c : ℕ) (s : Text)
    → is_whitespace c ≡ false
    → collapse_from prev (c ∷ s) ≡ c ∷ collapse_from false s
unfolding collapse_from
collapse_from-letter prev c s h = rw (collapse_from, h) refl
