-- ===== src/Judge/Mine/Tests.antt =====
-- Tests and witnesses on mining.
use talaria_v.Base.{
  wrap32, ℕ, ◌≤◌, ◌≡◌, refl, [], ◌∷◌, none, All, length, arith, false, pos, negsuc,
}
use talaria_v.Text.{Text, codes, trim}
use talaria_v.Text.Sample.{ascii_tables}
use talaria_v.Judge.Mine.{mine_sentence_with_carry, no_carry, has_subject_hook}
use talaria_v.Judge.Mine.Years.{extract_years}
use talaria_v.Judge.Mine.Hooked.{RestsOn, mine_sentence_with_carry-RestsOn}
use talaria_v.Judge.Mine.Chunks.{
  find_wiki_heading, chunks_from, split_heading_chunks, chunks_from-terminates,
}

abbrev same_character : ℕ → Text
same_character c = c ∷ []

abbrev sentence : Text
sentence = codes "He fought at Ulm in October 1805."

extract_years_test :
    extract_years (codes "in 44 bc and 1805")
    ≡ record { year = negsuc 43; surface = codes "44 BC" }
      ∷ record { year = pos 1805; surface = codes "1805" }
      ∷ []
unfolding extract_years codes wrap32
extract_years_test = refl

split_heading_chunks_test :
    split_heading_chunks (codes "Intro. == Life == He lived.")
    ≡ codes "Intro." ∷ codes "He lived." ∷ []
unfolding split_heading_chunks codes
split_heading_chunks_test = refl

mine_sentence_with_carry-RestsOn_example :
    (length (
        mine_sentence_with_carry ascii_tables same_character sentence (codes "Michel Ney") no_carry)
      ≤ 1)
    × All (RestsOn ascii_tables same_character (trim sentence) (codes "Michel Ney") no_carry) (
        mine_sentence_with_carry ascii_tables same_character sentence (codes "Michel Ney") no_carry)
mine_sentence_with_carry-RestsOn_example =
    mine_sentence_with_carry-RestsOn ascii_tables same_character sentence (codes "Michel Ney")
      no_carry

abbrev titled_text : Text
titled_text = codes "a == b == c"

within : length titled_text ≤ 20
unfolding codes
within = omega arith

chunks_from-terminates_example :
    (find_wiki_heading (chunks_from 20 titled_text).1 ≡ none)
    × (chunks_from 20 titled_text ≡ chunks_from (length titled_text) titled_text)
chunks_from-terminates_example = chunks_from-terminates titled_text 20 within

-- Only the first occurrence of a pronoun is looked at: the "he" in "the" hides the other.
hidden_pronoun_test :
    has_subject_hook
      (codes "in the year he left")
      record { wiki_title = []; aliases = []; year_min = pos 0; year_max = pos 0 }
    ≡ false
unfolding has_subject_hook codes
hidden_pronoun_test = refl
