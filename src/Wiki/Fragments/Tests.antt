-- ===== src/Wiki/Fragments/Tests.antt =====
-- Runs on fragments.
use talaria_v.Base.{
  map, ◌≡◌, refl, some, none, Option, ◌∷◌, [], ◌++◌, List, pos, All, arith, ◌<◌, ◌==◌,
  if◌then◌else◌, wrap32,
}
use talaria_v.Text.{Text, codes, text_eq, to_ascii_lower, to_ascii_lowercase, is_ascii_alphabetic}
use talaria_v.Text.Unicode.{Unicode}
use talaria_v.Text.Sample.{ascii_tables}
use talaria_v.Wiki.{erase}
use talaria_v.Wiki.Plain.{
  strip_html_comments, collapse_whitespace, strip_category_lines, strip_remaining_html_tags,
  simplify_wiki_links, remove_templates, strip_self_closing_tags, strip_block_tags,
}
use talaria_v.Wiki.Sections.{split_wiki_sections}
use talaria_v.Wiki.Fragments.Titles.{
  IsResolved, clear_links, apply_title_qids, apply_title_qids-IsResolved,
}
use talaria_v.Wiki.Fragments.{
  FragmentLink, section, sentence, WikiContentFragment, infobox_fragment, fragment_wikitext,
  box_list,
}
use talaria_v.Wiki.Fragments.Refs.{extract_refs}
use talaria_v.Wiki.Fragments.Parents.{Grouped, fragment_wikitext-Grouped}

abbrev note : Text
note = codes "He was crowned.<ref name=\"T\">Tulard </ref> So<ref name=x /> it is."

one_ref : extract_refs note ≡ record { ref_name = some (codes "T"); text = codes "Tulard" } ∷ []
unfolding extract_refs
one_ref = refl

no_box : infobox_fragment ascii_tables note ≡ some none
unfolding infobox_fragment
no_box = refl

fragment_wikitext-Grouped_example :
    (frags : List WikiContentFragment) × ((fragment_wikitext ascii_tables note
        ≡ some (box_list none ++ frags))
      × Grouped ascii_tables (split_wiki_sections note) frags)
fragment_wikitext-Grouped_example = fragment_wikitext-Grouped ascii_tables note none no_box

abbrev linked : Text
linked = codes "See [[Paris|the city]] here."

abbrev paris_titles : Text → Option Text
paris_titles t = if text_eq t (codes "Paris") then some (codes "Q90") else none

abbrev paris : FragmentLink
paris = record { surface = codes "the city"; target_title = codes "Paris"; qid = none }

abbrev lead : WikiContentFragment
lead = record {
  kind = section;
  parent_section_ordinal = none;
  ordinal = pos 0;
  text = linked;
  start_offset = pos 0;
  end_offset = pos 28;
  section_path = codes "Lead" ∷ [];
  internal_links = paris ∷ [];
  citations = [];
}

abbrev lead_sentence : WikiContentFragment
lead_sentence = record {
  kind = sentence;
  parent_section_ordinal = some (pos 0);
  ordinal = pos 0;
  text = codes "See the city here.";
  start_offset = pos 0;
  end_offset = pos 28;
  section_path = codes "Lead" ∷ [];
  internal_links = paris ∷ [];
  citations = [];
}

linked_fragments : fragment_wikitext ascii_tables linked ≡ some (lead ∷ lead_sentence ∷ [])
unfolding fragment_wikitext strip_html_comments collapse_whitespace erase strip_category_lines
    strip_remaining_html_tags simplify_wiki_links remove_templates strip_self_closing_tags
    strip_block_tags to_ascii_lowercase is_ascii_alphabetic wrap32
linked_fragments = refl

apply_title_qids-IsResolved_example :
    All (IsResolved paris_titles) (apply_title_qids paris_titles (lead ∷ lead_sentence ∷ []))
    × (map clear_links (apply_title_qids paris_titles (lead ∷ lead_sentence ∷ []))
        ≡ lead ∷ lead_sentence ∷ [])
apply_title_qids-IsResolved_example =
    apply_title_qids-IsResolved ascii_tables linked paris_titles (lead ∷ lead_sentence ∷ [])
      linked_fragments

-- Tables that also know the dotted capital I, whose lower case has one byte more.
lower_dotted : Text → Text
lower_dotted [] = []
lower_dotted (c ∷ s) =
    let rest = lower_dotted s in if c == 0x130 then b'i' ∷ 0x307 ∷ rest else to_ascii_lower c ∷ rest

lower_dotted-ascii : (s : Text) → All (λ c. c < 128) s → lower_dotted s ≡ to_ascii_lowercase s
unfolding lower_dotted to_ascii_lowercase
lower_dotted-ascii [] h = refl
lower_dotted-ascii (c ∷ s) h = ground (arith, lower_dotted-ascii s h.1)

abbrev dotted_tables : Unicode
dotted_tables = record ascii_tables {
  to_lowercase = lower_dotted;
  to_lowercase_ascii = lower_dotted-ascii;
}

-- Behind nine of these letters, the offset of the lower-case text is inside a letter of the infobox.
dotted_infobox : fragment_wikitext dotted_tables (codes "İİİİİİİİİ{{Infobox é|name=Ada}}") ≡ none
unfolding fragment_wikitext lower_dotted
dotted_infobox = refl
