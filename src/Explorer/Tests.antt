-- ===== src/Explorer/Tests.antt =====
-- Tests and witnesses on the explorer.
use talaria_v.Base.{◌≡◌, refl, true, some, none, pos}
use talaria_v.Text.{Text, codes}
use talaria_v.Text.Sample.{ascii_tables}
use talaria_v.Gates.{event_type_is_map_locus}
use talaria_v.Explorer.{
  is_explorer_map_event, trimmed, body_of, place_mentioned, pinned, is_human_place_label,
  is_occurrence_prose, type_cues,
}
use talaria_v.Explorer.Headline.{explorer_headline, first_sentence}

abbrev sentence : Text
sentence = codes "He fought at the battle of Austerlitz."

shown_test :
    is_explorer_map_event ascii_tables
      (codes "battle")
      (some (codes " Austerlitz "))
      (some sentence)
      none
    ≡ true
unfolding is_explorer_map_event codes event_type_is_map_locus pinned trimmed is_human_place_label
    is_occurrence_prose body_of place_mentioned type_cues
shown_test = refl

headline_test :
    explorer_headline
      (codes "Ney")
      (codes "birth")
      (some (pos 1769))
      (some (codes "Sarrelouis"))
      none
      none
    ≡ codes "Born in Sarrelouis (1769)"
unfolding explorer_headline codes is_human_place_label
headline_test = refl

first_sentence_test : first_sentence (codes " He won. He left. ") 160 ≡ codes "He won"
unfolding first_sentence codes
first_sentence_test = refl

-- An exile has no list of cues, so a sentence on the weather makes a pin.
weather_test :
    is_explorer_map_event ascii_tables
      (codes "exile")
      (some (codes "Elba"))
      (some (codes "The weather on Elba is mild in winter."))
      none
    ≡ true
unfolding is_explorer_map_event codes event_type_is_map_locus pinned trimmed is_human_place_label
    is_occurrence_prose body_of place_mentioned type_cues
weather_test = refl
