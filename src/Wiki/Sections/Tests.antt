-- ===== src/Wiki/Sections/Tests.antt =====
-- Runs of the splitting into sections.
use talaria_v.Base.{◌≡◌, refl, ◌∷◌, [], pos, All, arith, length, ◌<◌}
use talaria_v.Text.{Text, codes}
use talaria_v.Wiki.Sections.{split_wiki_sections}
use talaria_v.Wiki.Sections.Loop.{Numbered}
use talaria_v.Wiki.Sections.Sound.{IsCut, split_wiki_sections-IsCut, split_wiki_sections-Numbered}

two_sections :
    split_wiki_sections (codes "Léad.\r\n\n== Early life ==\nBorn.\n")
    ≡ record {
      ordinal = pos 0;
      title = codes "Lead";
      wikitext = codes "Léad.";
      start_offset = pos 0;
      end_offset = pos 5;
    }
      ∷ record {
        ordinal = pos 1;
        title = codes "Early life";
        wikitext = codes "Born.";
        start_offset = pos 25;
        end_offset = pos 30;
      }
      ∷ []
unfolding split_wiki_sections
two_sections = refl

abbrev biography : Text
biography = codes "Léad.\r\n\n== Early life ==\nBorn.\n"

split_wiki_sections-IsCut_example : All (IsCut biography) (split_wiki_sections biography)
unfolding codes
split_wiki_sections-IsCut_example = split_wiki_sections-IsCut biography (omega arith)

split_wiki_sections-Numbered_example :
    Numbered 0 (split_wiki_sections biography) × (0 < length (split_wiki_sections biography))
split_wiki_sections-Numbered_example = split_wiki_sections-Numbered biography
