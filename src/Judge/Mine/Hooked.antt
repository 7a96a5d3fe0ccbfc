-- ===== src/Judge/Mine/Hooked.antt =====
-- What a mined candidate rests on.
use talaria_v.Base.{
  ℕ, ◌≤◌, ◌≡◌, refl, Bool, true, not, ◌&&◌, List, Option, none, some, All, arith, length, ltb,
  is_none, ◌||◌, All-mono, Bool-cases, inl, inr,
}
use talaria_v.Text.{Text, trim, byte_len, to_ascii_lowercase}
use talaria_v.Text.Unicode.{Unicode}
use talaria_v.Judge.Mine.Cues.{is_commemorative, has_anecdote}
use talaria_v.Judge.Mine.Sources.{YearRests, PlaceRests, year-YearRests, place-PlaceRests}
use talaria_v.Judge.Mine.Titles.{Subject, resolve_subject, resolve_place}
use talaria_v.Judge.Mine.{
  MinedCandidate, MineCarry, year_for, place_for, own_year, mined, guarded, has_subject_hook,
  mine_sentence_with_carry, of_subject,
}

-- A candidate of the subject, with the year and the place, from a sentence that names the subject if
-- one of them was carried.
abbrev Rests : Text → Subject → Bool → Option Text → Option Text → MinedCandidate → Type 0
Rests lower subject used_carry year place c =
    (c.person ≡ subject.wiki_title)
    × (year ≡ some c.time)
    × (place ≡ some c.place)
    × (used_carry ≡ true → has_subject_hook lower subject ≡ true)

abbrev AtMostOne : (MinedCandidate → Type 0) → List MinedCandidate → Type 0
AtMostOne P cs = (length cs ≤ 1) × All P cs

mined-Rests :
    (lower : Text) (subject : Subject) (used_carry : Bool) (year place : Text)
    → (used_carry ≡ true → has_subject_hook lower subject ≡ true)
    → AtMostOne
        (Rests lower subject used_carry (some year) (some place))
        (mined lower subject year place)
unfolding mined
mined-Rests lower subject used_carry year place hook = elim (Bool-cases (has_anecdote lower)) [
  | inl anecdote ↦ rw anecdote (omega arith, ((refl, refl, refl, hook), tt))
  | inr plain ↦ elim (Bool-cases (is_commemorative lower)) [
    | inl honour ↦ rw (plain, honour) (omega arith, tt)
    | inr life ↦ rw (plain, life) (omega arith, ((refl, refl, refl, hook), tt))
  ]
]

guarded-Rests :
    (lower : Text) (subject : Subject) (used_carry : Bool) (year place : Option Text)
    → AtMostOne
        (Rests lower subject used_carry year place)
        (guarded lower subject used_carry year place)
unfolding guarded
guarded-Rests lower subject used_carry none place = (omega arith, tt)
guarded-Rests lower subject used_carry (some year) none = (omega arith, tt)
guarded-Rests lower subject used_carry (some year) (some place) =
    elim (Bool-cases (used_carry && not (has_subject_hook lower subject))) [
      | inl unhooked ↦ rw unhooked (omega arith, tt)
      | inr hooked ↦
          rw hooked
            (mined-Rests lower subject used_carry year place (λ h. ground (arith, h, hooked)))
    ]

module _ (u : Unicode) (to_uppercase : ℕ → Text) where
  -- The candidate rests on a sentence of 28 bytes or more and on the subject of the page, and has its
  -- year and its place from the sentence, or carried.
  abbrev pub RestsOn : Text → Text → MineCarry → MinedCandidate → Type 0
  RestsOn cleaned page_title carry c =
      (28 ≤ byte_len cleaned)
      × ((subject : Subject) × ((resolve_subject u page_title ≡ some subject)
            × ((c.person ≡ subject.wiki_title)
                × (YearRests (to_ascii_lowercase cleaned) subject carry c.time
                    × PlaceRests (to_ascii_lowercase cleaned) subject carry
                        (resolve_place to_uppercase cleaned page_title) c.place))))

  Rests-RestsOn :
      (cleaned page_title : Text) (carry : MineCarry) (subject : Subject) (c : MinedCandidate)
      → 28 ≤ byte_len cleaned
      → resolve_subject u page_title ≡ some subject
      → Rests
          (to_ascii_lowercase cleaned)
          subject
          (is_none (own_year (to_ascii_lowercase cleaned) subject)
            || is_none (resolve_place to_uppercase cleaned page_title))
          (year_for carry subject (own_year (to_ascii_lowercase cleaned) subject))
          (place_for carry (resolve_place to_uppercase cleaned page_title))
          c
      → RestsOn cleaned page_title carry c
  Rests-RestsOn cleaned page_title carry subject c long e (person, year, place, hook) =
      let lower : Text = to_ascii_lowercase cleaned in
      let own : Option Text = resolve_place to_uppercase cleaned page_title in
      (
        long,
        (
          subject,
          (
            e,
            (
              person,
              (
                year-YearRests lower subject carry (is_none own) c.time year hook,
                place-PlaceRests lower subject carry own (is_none (own_year lower subject)) c.place
                    place hook,
              ),
            ),
          ),
        ),
      )

  of_subject-RestsOn :
      (cleaned page_title : Text) (carry : MineCarry) (subject : Option Subject)
      → 28 ≤ byte_len cleaned
      → resolve_subject u page_title ≡ subject
      → AtMostOne
          (RestsOn cleaned page_title carry)
          (of_subject u to_uppercase cleaned page_title carry subject)
  of_subject-RestsOn cleaned page_title carry none long e = (omega arith, tt)
  of_subject-RestsOn cleaned page_title carry (some subject) long e =
      let (few, all) =
        guarded-Rests (to_ascii_lowercase cleaned) subject
          (is_none (own_year (to_ascii_lowercase cleaned) subject)
            || is_none (resolve_place to_uppercase cleaned page_title))
          (year_for carry subject (own_year (to_ascii_lowercase cleaned) subject))
          (place_for carry (resolve_place to_uppercase cleaned page_title)) in
      (
        few,
        All-mono _ (λ c rests. Rests-RestsOn cleaned page_title carry subject c long e rests) all,
      )

  -- A sentence yields at most one candidate, and only one that rests on it: the trimmed sentence has 28
  -- bytes or more and the person is the subject of the page. The year is the last of the years read
  -- from the sentence that lies within the window of the subject, or, where none does, the carried one,
  -- if its value lies within the window; the place is that of the sentence or the title, or, where
  -- there is none, the carried one. Where the year or the place is carried, the sentence has a hook to
  -- the subject.
  pub mine_sentence_with_carry-RestsOn :
      (text page_title : Text) (carry : MineCarry)
      → (length (mine_sentence_with_carry u to_uppercase text page_title carry) ≤ 1)
        × All
            (RestsOn (trim text) page_title carry)
            (mine_sentence_with_carry u to_uppercase text page_title carry)
  unfolding mine_sentence_with_carry
  mine_sentence_with_carry-RestsOn text page_title carry =
      elim (Bool-cases (ltb (byte_len (trim text)) 28)) [
        | inl short ↦ rw short (omega arith, tt)
        | inr long ↦ rw long (
            of_subject-RestsOn (trim text) page_title carry (resolve_subject u page_title)
              (ground (arith, long)) refl)
      ]
