-- ===== src/Judge/Mine/Sources.antt =====
-- The years and places that a mined candidate can rest on.
use talaria_v.Base.{
  ◌≡◌, refl, sym, ap, ◌↔◌, ◌⊎◌, Bool, true, false, ◌&&◌, List, [], ◌∷◌, ◌++◌, Option, none, some,
  All, arith, is_none, ◌||◌, Bool-cases, inl, inr, ℤ, ◌≤ℤ◌, leb_ℤ, subst, unwrap_or,
}
use talaria_v.Text.{Text}
use talaria_v.Judge.Mine.Titles.{Subject}
use talaria_v.Judge.Mine.Years.{FoundYear, extract_years, last_within, find_year_in_window}
use talaria_v.Judge.Mine.{MineCarry, carried_year, year_for, place_for, own_year, has_subject_hook}

abbrev pub InWindow : Subject → ℤ → Type 0
InWindow subject y = (subject.year_min ≤ℤ y) × (y ≤ℤ subject.year_max)

abbrev pub OutOfWindow : Subject → FoundYear → Type 0
OutOfWindow subject f = InWindow subject f.year → ⊥

-- The last of the years that is within the window of the subject.
pub record IsLastIn (subject : Subject) (years : List FoundYear) (f : FoundYear) : Type 0 where
  pub before : List FoundYear
  pub behind : List FoundYear
  pub splits : years ≡ before ++ f ∷ behind
  pub inside : InWindow subject f.year
  pub none_behind : All (OutOfWindow subject) behind

-- A year that the carry holds, within the window.
pub record IsCarried (subject : Subject) (carry : MineCarry) (time : Text) : Type 0 where
  pub value : ℤ
  pub value_is : carry.year_value ≡ some value
  pub inside : InWindow subject value
  pub time_is : carry.year ≡ some time

-- The year is the sentence's own, or the sentence has none and has a hook, and it is carried.
abbrev pub YearRests : Text → Subject → MineCarry → Text → Type 0
YearRests lower subject carry time =
    ((f : FoundYear) × (IsLastIn subject (extract_years lower) f × (time ≡ f.surface)))
    ⊎ (All (OutOfWindow subject) (extract_years lower)
        × ((has_subject_hook lower subject ≡ true) × IsCarried subject carry time))

-- The same for the place, of the sentence or the title.
abbrev pub PlaceRests : Text → Subject → MineCarry → Option Text → Text → Type 0
PlaceRests lower subject carry own place =
    (own ≡ some place)
    ⊎ ((own ≡ none) × ((has_subject_hook lower subject ≡ true) × (carry.place ≡ some place)))

abbrev in_window : Subject → FoundYear → Bool
in_window subject f = leb_ℤ subject.year_min f.year && leb_ℤ f.year subject.year_max

InWindow-iff :
    (subject : Subject) (y : ℤ)
    → ((leb_ℤ subject.year_min y && leb_ℤ y subject.year_max) ≡ true) ↔ InWindow subject y
InWindow-iff subject y = ground arith

-- The loop answers the last year inside, or what it had where all are outside.
abbrev LastOr : Subject → Option FoundYear → List FoundYear → Option FoundYear → Type 0
LastOr subject last years none = (last ≡ none) × All (OutOfWindow subject) years
LastOr subject last years (some f) =
    IsLastIn subject years f ⊎ ((last ≡ some f) × All (OutOfWindow subject) years)

absent_found : (t : Text) → ◌≡◌ {A = Option Text} none (some t) → ⊥
absent_found t h = cc h

found_absent : (f : FoundYear) → ◌≡◌ {A = Option FoundYear} (some f) none → ⊥
found_absent f h = cc h

LastOr-cons_out :
    (subject : Subject) (last : Option FoundYear) (g : FoundYear) (years : List FoundYear)
    (o : Option FoundYear)
    → OutOfWindow subject g
    → LastOr subject last years o
    → LastOr subject last (g ∷ years) o
LastOr-cons_out subject last g years none out h = (h.0, (out, h.1))
LastOr-cons_out subject last g years (some f) out (inl h) = inl (record {
  before = g ∷ h.before;
  behind = h.behind;
  splits = ap (◌∷◌ g) h.splits;
  inside = h.inside;
  none_behind = h.none_behind;
})
LastOr-cons_out subject last g years (some f) out (inr h) = inr (h.0, (out, h.1))

LastOr-cons_in :
    (subject : Subject) (last : Option FoundYear) (g : FoundYear) (years : List FoundYear)
    (o : Option FoundYear)
    → InWindow subject g.year
    → LastOr subject (some g) years o
    → LastOr subject last (g ∷ years) o
LastOr-cons_in subject last g years none inside h = absurd (found_absent g h.0)
LastOr-cons_in subject last g years (some f) inside (inl h) = inl (record {
  before = g ∷ h.before;
  behind = h.behind;
  splits = ap (◌∷◌ g) h.splits;
  inside = h.inside;
  none_behind = h.none_behind;
})
LastOr-cons_in subject last g years (some f) inside (inr h) =
    subst (λ e. LastOr subject last (g ∷ years) (some e)) (ap (λ o. unwrap_or o g) h.0)
      (inl
        (record { before = []; behind = years; splits = refl; inside = inside; none_behind = h.1 }))

last_within-LastOr :
    (subject : Subject) (last : Option FoundYear) (years : List FoundYear)
    → LastOr subject last years (last_within subject.year_min subject.year_max last years)
unfolding last_within
last_within-LastOr subject none [] = (refl, tt)
last_within-LastOr subject (some f) [] = inr (refl, tt)
last_within-LastOr subject last (g ∷ years) = elim (Bool-cases (in_window subject g)) [
  | inl e ↦
      rw (last_within, e)
        (LastOr-cons_in subject last g years _ ((InWindow-iff subject g.year).0 e)
          (last_within-LastOr subject (some g) years))
  | inr e ↦
      rw (last_within, e)
        (LastOr-cons_out subject last g years _ (λ i. cc ((InWindow-iff subject g.year).1 i, e))
          (last_within-LastOr subject last years))
]

find_year-LastOr :
    (lower : Text) (subject : Subject)
    → LastOr subject none (extract_years lower) (own_year lower subject)
unfolding find_year_in_window
find_year-LastOr lower subject = last_within-LastOr subject none (extract_years lower)

carried_year-IsCarried :
    (subject : Subject) (carry : MineCarry) (value : Option ℤ) (time : Text)
    → carry.year_value ≡ value
    → carried_year subject value carry.year ≡ some time
    → IsCarried subject carry time
carried_year-IsCarried subject carry none time e h = absurd (absent_found time h)
carried_year-IsCarried subject carry (some value) time e h =
    elim (Bool-cases (leb_ℤ subject.year_min value && leb_ℤ value subject.year_max)) [
      | inl inside ↦ record {
        value = value;
        value_is = e;
        inside = (InWindow-iff subject value).0 inside;
        time_is = rw inside at h;
      }
      | inr outside ↦ absurd (absent_found time (rw outside at h))
    ]

year_for-YearRests :
    (lower : Text) (subject : Subject) (carry : MineCarry) (own : Option FoundYear)
    (no_place : Bool) (time : Text)
    → LastOr subject none (extract_years lower) own
    → year_for carry subject own ≡ some time
    → ((is_none own || no_place) ≡ true → has_subject_hook lower subject ≡ true)
    → YearRests lower subject carry time
unfolding year_for
year_for-YearRests lower subject carry none no_place time last e hook =
    inr (last.1, (hook refl, carried_year-IsCarried subject carry carry.year_value time refl e))
year_for-YearRests lower subject carry (some f) no_place time (inl last) e hook =
    inl (f, (last, sym (ap (λ o. unwrap_or o time) e)))
year_for-YearRests lower subject carry (some f) no_place time (inr (e2, out)) e hook =
    absurd (found_absent f (sym e2))

-- The year of what is mined is that of the sentence, or a carried one.
pub year-YearRests :
    (lower : Text) (subject : Subject) (carry : MineCarry) (no_place : Bool) (time : Text)
    → year_for carry subject (own_year lower subject) ≡ some time
    → ((is_none (own_year lower subject) || no_place) ≡ true
        → has_subject_hook lower subject ≡ true)
    → YearRests lower subject carry time
year-YearRests lower subject carry no_place time =
    year_for-YearRests lower subject carry (own_year lower subject) no_place time
      (find_year-LastOr lower subject)

pub place-PlaceRests :
    (lower : Text) (subject : Subject) (carry : MineCarry) (own : Option Text) (no_year : Bool)
    (place : Text)
    → place_for carry own ≡ some place
    → ((no_year || is_none own) ≡ true → has_subject_hook lower subject ≡ true)
    → PlaceRests lower subject carry own place
unfolding place_for
place-PlaceRests lower subject carry none true place e hook = inr (refl, (hook refl, e))
place-PlaceRests lower subject carry none false place e hook = inr (refl, (hook refl, e))
place-PlaceRests lower subject carry (some own) no_year place e hook = inl e
