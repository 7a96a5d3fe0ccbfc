-- ===== src/Judge/Mine.antt =====
-- Keyword mining over sentences of a dump: crates/talaria-judge/src/dump_mine.rs.
pub mod Cues
pub mod Years
pub mod Titles
pub mod Sources
pub mod Hooked
pub mod Chunks
mod Tests
use talaria_v.Base.{
  ℕ, String, Bool, true, false, not, ◌&&◌, ◌||◌, List, [], ◌∷◌, Option, none, some, ltb,
  if◌then◌else◌, any, ℤ, leb_ℤ, is_none,
}
use talaria_v.Text.{Text, codes, is, trim, byte_len, contains, to_ascii_lowercase}
use talaria_v.Text.Find.{first_is_word}
use talaria_v.Text.Unicode.{Unicode}
use talaria_v.Judge.Deaths.{any_first_word, death_refers_to_other_person}
use talaria_v.Judge.Mine.Cues.{has_anecdote, is_commemorative, verb_cues}
use talaria_v.Judge.Mine.Years.{FoundYear, find_year_in_window}
use talaria_v.Judge.Mine.Titles.{Subject, resolve_subject, resolve_place}

pub record MinedCandidate : Type 0 where
  pub person : Text
  pub time : Text
  pub place : Text
  pub verb : Text
  pub extractor : Text

pub record MineCarry : Type 0 where
  pub year : Option Text
  pub year_value : Option ℤ
  pub place : Option Text

-- `MineCarry::default`
abbrev pub no_carry : MineCarry
no_carry = record { year = none; year_value = none; place = none }

unfoldable pub verb_of_cues : Text → List (String × String) → Option Text
unfolding contains codes
verb_of_cues lower [] = none
verb_of_cues lower ((cue, verb) ∷ cues) =
    let rest = verb_of_cues lower cues in
    if contains lower (codes cue) then some (codes verb) else rest

unfoldable pub find_verb : Text → Option Text
unfolding verb_of_cues verb_cues
find_verb lower = verb_of_cues lower verb_cues

unfoldable pub has_subject_hook : Text → Subject → Bool
unfolding first_is_word any_first_word
has_subject_hook lower subject =
    if any (λ alias. first_is_word lower alias) subject.aliases
    then true
    else any_first_word lower
        ("she" ∷ "he" ∷ "they" ∷ "herself" ∷ "himself" ∷ "il" ∷ "elle" ∷ "lui" ∷ "on" ∷ [])

abbrev pub carried_year : Subject → Option ℤ → Option Text → Option Text
carried_year subject none year = none
carried_year subject (some value) year =
    if leb_ℤ subject.year_min value && leb_ℤ value subject.year_max then year else none

-- The year of the sentence, or the carried one if it is within the window.
unfoldable pub year_for : MineCarry → Subject → Option FoundYear → Option Text
year_for carry subject none = carried_year subject carry.year_value carry.year
year_for carry subject (some found) = some found.surface

-- The place of the sentence, or the carried one.
unfoldable pub place_for : MineCarry → Option Text → Option Text
place_for carry none = carry.place
place_for carry (some place) = some place

abbrev verb_or_occurred : Option Text → Text
verb_or_occurred none = codes "occurred"
verb_or_occurred (some verb) = verb

-- What is mined once the year and the place are known.
unfoldable pub mined : Text → Subject → Text → Text → List MinedCandidate
unfolding codes
mined lower subject year place =
    let verb = verb_or_occurred (find_verb lower) in
    let told =
      if is verb "died" && death_refers_to_other_person lower subject.aliases
      then codes "grieved"
      else verb in
    if has_anecdote lower
    then record {
      person = subject.wiki_title;
      time = year;
      place = place;
      verb = codes "anecdoted";
      extractor = codes "dump:anecdote";
    }
      ∷ []
    else if is_commemorative lower
    then []
    else record {
      person = subject.wiki_title;
      time = year;
      place = place;
      verb = told;
      extractor = codes "dump_keywords";
    }
      ∷ []

-- The early returns for a missing year, a missing place and a missing hook.
unfoldable pub guarded : Text → Subject → Bool → Option Text → Option Text → List MinedCandidate
guarded lower subject used_carry none place = []
guarded lower subject used_carry (some year) none = []
guarded lower subject used_carry (some year) (some place) =
    if used_carry && not (has_subject_hook lower subject)
    then []
    else mined lower subject year place

-- What a sentence says of its subject.
abbrev pub own_year : Text → Subject → Option FoundYear
own_year lower subject = find_year_in_window lower subject.year_min subject.year_max

module _ (u : Unicode) (to_uppercase : ℕ → Text) where
  abbrev of_subject : Text → Text → MineCarry → Option Subject → List MinedCandidate
  of_subject cleaned page_title carry none = []
  of_subject cleaned page_title carry (some subject) =
      let lower = to_ascii_lowercase cleaned in
      let year = own_year lower subject in
      let place = resolve_place to_uppercase cleaned page_title in
      guarded lower subject (is_none year || is_none place) (year_for carry subject year)
        (place_for carry place)

  unfoldable pub mine_sentence_with_carry : Text → Text → MineCarry → List MinedCandidate
  mine_sentence_with_carry text page_title carry =
      let cleaned = trim text in
      if ltb (byte_len cleaned) 28
      then []
      else of_subject cleaned page_title carry (resolve_subject u page_title)

  unfoldable pub mine_sentence : Text → Text → List MinedCandidate
  unfolding mine_sentence_with_carry
  mine_sentence text page_title = mine_sentence_with_carry text page_title no_carry

  abbrev absorb_year : MineCarry → Option FoundYear → MineCarry
  absorb_year carry none = carry
  absorb_year carry (some found) = record carry {
    year = some found.surface;
    year_value = some found.year;
  }

  abbrev absorb_place : MineCarry → Option Text → MineCarry
  absorb_place carry none = carry
  absorb_place carry (some place) = record carry { place = some place }

  abbrev absorb_subject : MineCarry → Text → Text → Option Subject → MineCarry
  absorb_subject carry cleaned page_title none = carry
  absorb_subject carry cleaned page_title (some subject) =
      absorb_place (absorb_year carry (own_year (to_ascii_lowercase cleaned) subject))
        (resolve_place to_uppercase cleaned page_title)

  unfoldable pub absorb : MineCarry → Text → Text → MineCarry
  absorb carry text page_title =
      let cleaned = trim text in
      if ltb (byte_len cleaned) 20
      then carry
      else if is_commemorative (to_ascii_lowercase cleaned)
      then carry
      else absorb_subject carry cleaned page_title (resolve_subject u page_title)
