-- ===== src/Judge/Place/Best.antt =====
-- The place found in a text is the best one.
use talaria_v.Base.{
  ℕ, ◌≡◌, refl, subst, ◌⊎◌, inl, inr, ◌&&◌, String, true, false, List, [], ◌∷◌, Option, none, some,
  ℤ, All, All-mono, Any, arith, if◌then◌else◌, Bool-cases,
}
use talaria_v.Text.{Text, codes, to_ascii_lowercase}
use talaria_v.Text.Find.{first_is_word}
use talaria_v.Judge.Gazetteer.{gazetteer}
use talaria_v.Judge.Place.{better, best_place, find_place_in_text, titled}

-- The name of a place stands in the text as a word.
abbrev pub Stands : Text → String × ℤ × ℤ → Type 0
Stands lower place = first_is_word lower (codes place.0) ≡ true

-- Being no better is transitive.
better_trans :
    (best : Option Text) (n m : Text)
    → better best n ≡ true
    → better best m ≡ false
    → better (some n) m ≡ false
better_trans none n m h k = cc k
better_trans (some b) n m h k = ground (arith, h, k)

better_self : (n : Text) → better (some n) n ≡ false
better_self n = ground arith

-- One round of the loop.
abbrev next : Text → Option Text → String → Option Text
next lower best name =
    if first_is_word lower (codes name) && better best (codes name) then some (codes name) else best

next-better :
    (lower : Text) (best : Option Text) (name : String) (m : Text)
    → better best m ≡ false
    → better (next lower best name) m ≡ false
next-better lower best name m h =
    elim (Bool-cases (first_is_word lower (codes name) && better best (codes name))) [
      | inl taken ↦ rw taken (better_trans best (codes name) m (ground (arith, taken)) h)
      | inr kept ↦ rw kept h
    ]

next-Stands :
    (lower : Text) (best : Option Text) (name : String)
    → first_is_word lower (codes name) ≡ true
    → better (next lower best name) (codes name) ≡ false
next-Stands lower best name h = elim (Bool-cases (better best (codes name))) [
  | inl taken ↦ rw (h, taken) (better_self (codes name))
  | inr kept ↦ rw (h, kept) kept
]

best_place-better :
    (lower : Text) (best : Option Text) (places : List (String × ℤ × ℤ)) (m : Text)
    → better best m ≡ false
    → better (best_place lower best places) m ≡ false
unfolding best_place
best_place-better lower best [] m h = h
best_place-better lower best ((name, lat, lon) ∷ places) m h =
    best_place-better lower (next lower best name) places m (next-better lower best name m h)

best_place-covers :
    (lower : Text) (best : Option Text) (places : List (String × ℤ × ℤ))
    → All
        (λ place.
          Stands lower place → better (best_place lower best places) (codes place.0) ≡ false)
        places
unfolding best_place
best_place-covers lower best [] = tt
best_place-covers lower best ((name, lat, lon) ∷ places) = (
  (λ h.
      best_place-better lower (next lower best name) places (codes name)
        (next-Stands lower best name h)),
  best_place-covers lower (next lower best name) places,
)

-- The text is the name of a place of the list that stands in the text.
abbrev pub IsFound : Text → List (String × ℤ × ℤ) → Text → Type 0
IsFound lower places n = Any (λ place. (n ≡ codes place.0) × Stands lower place) places

best_place-Found :
    (lower : Text) (best : Option Text) (places : List (String × ℤ × ℤ))
    → (best_place lower best places ≡ best)
      ⊎ ((n : Text) × (best_place lower best places ≡ some n) × IsFound lower places n)
unfolding best_place
best_place-Found lower best [] = inl refl
best_place-Found lower best ((name, lat, lon) ∷ places) =
    elim (Bool-cases (first_is_word lower (codes name) && better best (codes name))) [
      | inl taken ↦ rw taken (elim (best_place-Found lower (some (codes name)) places) [
        | inl e ↦ inr (codes name, e, inl (refl, ground (arith, taken)))
        | inr (n, e, found) ↦ inr (n, e, inr found)
      ])
      | inr kept ↦ rw kept (elim (best_place-Found lower best places) [
        | inl e ↦ inl e
        | inr (n, e, found) ↦ inr (n, e, inr found)
      ])
    ]

-- No name, where none stands; or a name that stands, and of those that stand none is better.
abbrev pub IsBest : Text → List (String × ℤ × ℤ) → Option Text → Type 0
IsBest lower places none = All (λ place. Stands lower place → ⊥) places
IsBest lower places (some n) =
    IsFound lower places n
    × All (λ place. Stands lower place → better (some n) (codes place.0) ≡ false) places

covered-IsBest :
    (lower : Text) (places : List (String × ℤ × ℤ)) (r : Option Text)
    → (r ≡ none) ⊎ ((n : Text) × (r ≡ some n) × IsFound lower places n)
    → All (λ place. Stands lower place → better r (codes place.0) ≡ false) places
    → IsBest lower places r
covered-IsBest lower places none found covers =
    All-mono places (λ place h stands. cc (h stands)) covers
covered-IsBest lower places (some n) (inl e) covers = cc e
covered-IsBest lower places (some n) (inr (m, e, found)) covers =
    let same : m ≡ n = cc e in (subst (IsFound lower places) same found, covers)

-- The place found in a text is the title of a name of the gazetteer whose first occurrence in the text
-- stands alone; of those names none is a locality where it is a realm, nor as local and longer. No
-- place is found only where no name stands alone.
pub find_place_in_text-IsBest :
    (to_uppercase : ℕ → Text) (text : Text)
    → (r : Option Text) × (find_place_in_text to_uppercase text ≡ titled to_uppercase r)
      × IsBest (to_ascii_lowercase text) gazetteer r
unfolding find_place_in_text
find_place_in_text-IsBest to_uppercase text =
    let lower = to_ascii_lowercase text in
    (
      best_place lower none gazetteer,
      refl,
      covered-IsBest lower gazetteer (best_place lower none gazetteer)
          (best_place-Found lower none gazetteer) (best_place-covers lower none gazetteer),
    )
