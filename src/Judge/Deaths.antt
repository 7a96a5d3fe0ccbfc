-- ===== src/Judge/Deaths.antt =====
-- Whose death a sentence tells: crates/talaria-judge/src/dump_mine.rs (lines 481 to 525).
use talaria_v.Base.{String, Bool, true, false, ◌&&◌, ◌||◌, List, [], ◌∷◌, ◌++◌, if◌then◌else◌, any}
use talaria_v.Text.{Text, codes, contains, contains_any}
use talaria_v.Text.Find.{first_is_word}

-- `RELATIVES.iter().any(|rel| contains_word(s, rel))`
unfoldable pub any_first_word : Text → List String → Bool
unfolding first_is_word codes
any_first_word s [] = false
any_first_word s (lit ∷ lits) = first_is_word s (codes lit) || any_first_word s lits

unfoldable pub subject_died_explicitly : Text → List Text → Bool
unfolding contains codes
subject_died_explicitly sentence subject_aliases =
    any
      (λ alias.
        contains sentence (alias ++ codes " died")
        || contains sentence (alias ++ codes " drowned")
        || contains sentence (codes "death of " ++ alias)
        || contains sentence (alias ++ codes "'s death"))
      subject_aliases

unfoldable pub death_refers_to_other_person : Text → List Text → Bool
unfolding subject_died_explicitly any_first_word contains_any contains codes
death_refers_to_other_person sentence subject_aliases =
    let has_relative = any_first_word sentence (
      "daughter" ∷ "son" ∷ "wife" ∷ "husband" ∷ "father" ∷ "mother" ∷ "sister" ∷ "brother" ∷ "child"
      ∷ "infant" ∷ "fiancée" ∷ "fiancee" ∷ []) in
    let has_death =
      contains_any sentence
        (" died" ∷ "drowned" ∷ "was buried" ∷ "funeral" ∷ "'s death" ∷ "death of" ∷ []) in
    if subject_died_explicitly sentence subject_aliases
    then false
    else if has_relative && has_death
    then true
    else contains sentence (codes "'s death")
