-- ===== src/Matching.antt =====
-- Names of a subject in a document: crates/talaria-sources/src/matching.rs (lines 10 to 107). The
-- score of a document, a sum of `f32`, is left out.
mod Tests
use talaria_v.Base.{
  ℕ, Bool, true, false, ◌&&◌, ◌||◌, List, [], ◌∷◌, ◌++◌, Option, none, some, ltb, leb, ◌==◌,
  if◌then◌else◌, keep, map,
}
use talaria_v.Base.Sort.{sort_by}
use talaria_v.Text.{Text, codes, contains, trim, byte_len, split, split_whitespace, to_ascii_lower}
use talaria_v.Identity.{text_le}
use talaria_v.Assertion.{dedup_texts}

abbrev between : ℕ → ℕ → ℕ → Bool
between lo hi c = leb lo c && leb c hi

-- The ranges of letters with marks, small and capital: À to Å, È to Ë, Ì to Ï, Ò to Ö, Ù to Ü, Ç and Ñ.
unfoldable pub fold_char : ℕ → ℕ
unfolding to_ascii_lower
fold_char c =
    if between 0xc0 0xc5 c || between 0xe0 0xe5 c
    then b'a'
    else if between 0xc8 0xcb c || between 0xe8 0xeb c
    then b'e'
    else if between 0xcc 0xcf c || between 0xec 0xef c
    then b'i'
    else if between 0xd2 0xd6 c || between 0xf2 0xf6 c
    then b'o'
    else if between 0xd9 0xdc c || between 0xf9 0xfc c
    then b'u'
    else if c == 0xc7 || c == 0xe7
    then b'c'
    else if c == 0xd1 || c == 0xf1
    then b'n'
    else to_ascii_lower c

unfoldable pub fold : Text → Text
unfolding fold_char
fold s = map fold_char s

unfoldable pub contains_token : Text → Text → Bool
unfolding fold byte_len contains
contains_token hay needle =
    let n = fold needle in if ltb (byte_len n) 3 then false else contains (fold hay) n

-- The aliases of the four names that have their own.
unfoldable pub catalog_aliases : Text → List Text
unfolding contains codes
catalog_aliases folded =
    (if contains folded (codes "christopher") && contains folded (codes "columbus")
      then codes "Christophe Colomb"
        ∷ codes "Christopher Columbus"
        ∷ codes "Colomb, Christophe"
        ∷ codes "Columbus, Christopher"
        ∷ codes "Colomb"
        ∷ []
      else [])
    ++ ((if contains folded (codes "christophe") && contains folded (codes "colomb")
          then codes "Christopher Columbus"
            ∷ codes "Christophe Colomb"
            ∷ codes "Colomb, Christophe"
            ∷ codes "Colomb"
            ∷ []
          else [])
        ++ ((if contains folded (codes "napoleon")
              then codes "Napoléon" ∷ codes "Napoleon Bonaparte" ∷ codes "Bonaparte, Napoléon" ∷ []
              else [])
            ++ (if contains folded (codes "marie") && contains folded (codes "curie")
                then codes "Marie Curie" ∷ codes "Curie, Marie" ∷ []
                else [])))

-- The last of one word or more.
abbrev last_of_words : Text → List Text → Text
last_of_words w [] = w
last_of_words w (v ∷ vs) = last_of_words v vs

-- `format!("{last}, {first}")`
abbrev inverted : Text → Text → Text
inverted name last = last ++ b',' ∷ b' ' ∷ name

abbrev word_aliases : List Text → List Text
word_aliases [] = []
word_aliases (w ∷ []) = []
word_aliases (w ∷ v ∷ vs) =
    let last = last_of_words v vs in
    inverted w last ∷ (if leb 6 (byte_len last) then last ∷ [] else [])

unfoldable pub subject_match_aliases : Text → List Text
unfolding trim catalog_aliases fold split_whitespace sort_by text_le dedup_texts byte_len
subject_match_aliases label =
    keep (λ s. leb 3 (byte_len s))
      (dedup_texts (
        sort_by text_le
          (trim label ∷ catalog_aliases (fold label) ++ word_aliases (split_whitespace label))))

-- `alias.rsplit(' ').next().unwrap_or("")`
abbrev behind_space : List Text → Text
behind_space [] = []
behind_space (w ∷ ws) = last_of_words w ws

unfoldable pub distinctive_surname_in_text : Text → List Text → Option Text
unfolding byte_len contains_token split
distinctive_surname_in_text text [] = none
distinctive_surname_in_text text (alias ∷ aliases) =
    let later = distinctive_surname_in_text text aliases in
    let last = behind_space (split (λ c. c == b' ') alias) in
    if leb 5 (byte_len last) && contains_token text last then some last else later

-- The first and the last word of an alias of two words or more.
abbrev words_mentioned : Text → List Text → Option Text
words_mentioned text [] = none
words_mentioned text (w ∷ []) = none
words_mentioned text (w ∷ v ∷ vs) =
    let last = last_of_words v vs in
    if contains_token text w && contains_token text last
    then some (w ++ (codes " … " ++ last))
    else if contains_token text (inverted w last)
    then some (inverted w last)
    else none

abbrev or_later : Option Text → Option Text → Option Text
or_later none later = later
or_later (some s) later = some s

unfoldable pub first_mention : Text → List Text → Option Text
unfolding contains_token split_whitespace codes
first_mention text [] = none
first_mention text (alias ∷ aliases) =
    let later = first_mention text aliases in
    if contains_token text alias
    then some alias
    else or_later (words_mentioned text (split_whitespace alias)) later

abbrev with_surname : Option Text → Option Text
with_surname none = none
with_surname (some s) = some (codes "surname " ++ s)

unfoldable pub text_mentions_alias : Text → List Text → Option Text
unfolding first_mention distinctive_surname_in_text codes
text_mentions_alias text aliases =
    or_later (first_mention text aliases) (with_surname (distinctive_surname_in_text text aliases))
