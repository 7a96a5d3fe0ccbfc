-- ===== src/Wiki/Sentences/Tests.antt =====
-- Runs of the splitting into sentences.
use talaria_v.Base.{◌≡◌, refl, some, List, ◌∷◌, [], pos, wrap32}
use talaria_v.Text.{Text, codes, is_ascii_alphabetic, trim, byte_len}
use talaria_v.Text.Sample.{ascii_tables}
use talaria_v.Wiki.Sentences.{SentenceSpan, split_sentences}
use talaria_v.Wiki.Sentences.Parts.{InOrder}
use talaria_v.Wiki.Sentences.Sound.{split_sentences-InOrder}

abbrev life : Text
life = codes "Dr. Smith was born here. ==== Children ==== He moved in 1820. She was 12."

life_split :
    split_sentences ascii_tables life
    ≡ some (
        record {
          ordinal = pos 0;
          text = codes "Dr. Smith was born here.";
          char_start = pos 0;
          char_end = pos 25;
        }
        ∷ record {
          ordinal = pos 1;
          text = codes "He moved in 1820.";
          char_start = pos 44;
          char_end = pos 62;
        }
        ∷ [])
unfolding split_sentences is_ascii_alphabetic wrap32
life_split = refl

split_sentences-InOrder_example :
    (ss : List SentenceSpan) × ((split_sentences ascii_tables life ≡ some ss)
      × InOrder ascii_tables (trim life) 0 0 (byte_len (trim life)) ss)
split_sentences-InOrder_example = split_sentences-InOrder ascii_tables life
