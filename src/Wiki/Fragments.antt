-- ===== src/Wiki/Fragments.antt =====
-- The fragments of a wikitext, its infobox, sections and sentences with their links and citations:
-- crates/talaria-text/src/fragments.rs. A panic of a callee makes the result `none`.
pub mod Refs
pub mod Titles
pub mod Parents
mod Tests
use talaria_v.Base.{
  ℕ, zero, suc, ◌+◌, ◌-◌, ℤ, pos, Bool, true, false, ◌&&◌, ◌||◌, List, [], ◌∷◌, ◌++◌, Option, none,
  some, ◌>>=◌, leb, ltb, if◌then◌else◌, length, take, drop, map, keep, leb_ℤ, ltb_ℤ, add_i32,
  unwrap_or,
}
use talaria_v.Text.{Text, codes, join, contains, starts_with, to_ascii_lowercase}
use talaria_v.Text.Find.{find_split}
use talaria_v.Text.Unicode.{Unicode}
use talaria_v.Wiki.{find_template_end}
use talaria_v.Wiki.Plain.{wikitext_to_plain}
use talaria_v.Wiki.Sections.{WikiSectionSpan, as_i32, split_wiki_sections}
use talaria_v.Wiki.Sentences.{SentenceSpan, split_sentences}
use talaria_v.Wiki.Links.{WikiLink, extract_wikilinks}
use talaria_v.Wiki.Infobox.{InfoboxField, parse_infobox_fields}
use talaria_v.Wiki.Fragments.Refs.{FragmentCitation, LocatedRef, find_ascii_ci, locate_refs}

pub record FragmentLink : Type 0 where
  pub surface : Text
  pub target_title : Text
  pub qid : Option Text

-- The three values of the field `kind`.
pub data FragmentKind : Type 0 where
  infobox section sentence : FragmentKind

pub record WikiContentFragment : Type 0 where
  pub kind : FragmentKind
  pub parent_section_ordinal : Option ℤ
  pub ordinal : ℤ
  pub text : Text
  pub start_offset : ℤ
  pub end_offset : ℤ
  pub section_path : List Text
  pub internal_links : List FragmentLink
  pub citations : List FragmentCitation

unfoldable pub to_fragment_link : WikiLink → FragmentLink
to_fragment_link link = record { surface = link.display; target_title = link.target; qid = none }

unfoldable pub refs_in_range : List LocatedRef → ℤ → ℤ → List FragmentCitation
refs_in_range refs start end =
    map (λ r. r.citation) (keep (λ r. leb_ℤ start r.start_char && ltb_ℤ r.start_char end) refs)

abbrev field_lines : List InfoboxField → Text
field_lines fields = join (map (λ f. f.key ++ b'=' ∷ f.value) fields) (codes "\n")

-- The template begins behind `before` and its first braces, and `behind` is what follows it.
abbrev infobox_between : Unicode → Text → Text → Text → List InfoboxField → WikiContentFragment
infobox_between u wikitext before behind fields =
    let start = length before in
    let end = length wikitext - length behind in
    record {
      kind = infobox;
      parent_section_ordinal = none;
      ordinal = pos 0;
      text = field_lines fields;
      start_offset = as_i32 start;
      end_offset = as_i32 end;
      section_path = [];
      internal_links =
          map to_fragment_link (extract_wikilinks u (take (end - start) (drop start wikitext)));
      citations = [];
    }

abbrev infobox_found : Unicode → Text → Text → Option Text → Option (Option WikiContentFragment)
infobox_found u wikitext before none = some none
infobox_found u wikitext before (some behind) = do
  fields ← parse_infobox_fields u wikitext
  some (some (infobox_between u wikitext before behind fields))

abbrev infobox_from : Unicode → Text → Option (Text × Text) → Option (Option WikiContentFragment)
infobox_from u wikitext none = some none
infobox_from u wikitext (some (before, found)) =
    infobox_found u wikitext before (find_template_end (drop 2 found))

unfoldable pub infobox_fragment : Unicode → Text → Option (Option WikiContentFragment)
unfolding find_ascii_ci codes parse_infobox_fields find_template_end extract_wikilinks join
    to_fragment_link
infobox_fragment u wikitext = infobox_from u wikitext (find_ascii_ci wikitext (codes "{{infobox"))

unfoldable pub section_fragment : Unicode → WikiSectionSpan → List LocatedRef → WikiContentFragment
unfolding extract_wikilinks to_fragment_link refs_in_range
section_fragment u s refs = record {
  kind = section;
  parent_section_ordinal = none;
  ordinal = s.ordinal;
  text = s.wikitext;
  start_offset = s.start_offset;
  end_offset = s.end_offset;
  section_path = s.title ∷ [];
  internal_links = map to_fragment_link (extract_wikilinks u s.wikitext);
  citations = refs_in_range refs s.start_offset s.end_offset;
}

-- The end of the slice that a suffix found behind the prefix gives.
abbrev located_end : Text → Text → Text → Option (Text × Text) → ℤ × ℤ
located_end before prefix suffix none =
    (as_i32 (length before), as_i32 (length before + length prefix))
located_end before prefix suffix (some (between, after)) =
    (as_i32 (length before), as_i32 (length before + length between + length suffix))

-- The loop over the lengths of a prefix, the longest first; `n + 12` is the length at hand.
unfoldable pub locate_prefix : Text → Text → ℕ → Option (ℤ × ℤ)
unfolding find_split
locate_prefix wiki plain zero = elim (find_split (take 12 plain) wiki) [
  | none ↦ none
  | some (before, after) ↦
      let suffix = drop (length plain - 12) plain in
      some (located_end before (take 12 plain) suffix (find_split suffix (take 12 plain ++ after)))
]
locate_prefix wiki plain (suc n) = elim (find_split (take (suc n + 12) plain) wiki) [
  | none ↦ locate_prefix wiki plain n
  | some (before, after) ↦
      let prefix = take (suc n + 12) plain in
      let suffix = drop (length plain - 12) plain in
      some (located_end before prefix suffix (find_split suffix (prefix ++ after)))
]

abbrev min_48 : ℕ → ℕ
min_48 n = if leb n 48 then n else 48

unfoldable pub locate_plain_in_wiki : Text → Text → Option (ℤ × ℤ)
unfolding find_split locate_prefix
locate_plain_in_wiki wiki plain = elim (find_split plain wiki) [
  | some (before, after) ↦ some (as_i32 (length before), as_i32 (length before + length plain))
  | none ↦
      if ltb (length plain) 12 then none else locate_prefix wiki plain (min_48 (length plain) - 12)
]

abbrev shifted : WikiSectionSpan → Option (ℤ × ℤ) → ℤ × ℤ
shifted s none = (s.start_offset, s.end_offset)
shifted s (some (a, b)) = (add_i32 s.start_offset a, add_i32 s.start_offset b)

unfoldable pub located : WikiSectionSpan → SentenceSpan → ℤ × ℤ
unfolding locate_plain_in_wiki add_i32
located s sent = shifted s (locate_plain_in_wiki s.wikitext sent.text)

abbrev next_start : WikiSectionSpan → List SentenceSpan → ℤ
next_start s [] = s.end_offset
next_start s (sent ∷ sents) = (located s sent).0

abbrev max_ℤ : ℤ → ℤ → ℤ
max_ℤ a b = if leb_ℤ a b then b else a

module _ (u : Unicode) (refs : List LocatedRef) (s : WikiSectionSpan) where
  -- The fragment of a sentence, with the sentences that follow it.
  unfoldable pub sentence_fragment : SentenceSpan → List SentenceSpan → WikiContentFragment
  unfolding located extract_wikilinks contains to_fragment_link refs_in_range
  sentence_fragment sent later =
      let place = located s sent in
      record {
        kind = sentence;
        parent_section_ordinal = some s.ordinal;
        ordinal = sent.ordinal;
        text = sent.text;
        start_offset = place.0;
        end_offset = place.1;
        section_path = s.title ∷ [];
        internal_links = map to_fragment_link (
            keep (λ l. contains sent.text l.display || contains sent.text l.target)
              (extract_wikilinks u s.wikitext));
        citations = refs_in_range refs place.0 (max_ℤ (next_start s later) place.1);
      }

  unfoldable pub fragments_of : List SentenceSpan → List WikiContentFragment
  unfolding sentence_fragment
  fragments_of [] = []
  fragments_of (sent ∷ later) = sentence_fragment sent later ∷ fragments_of later

  unfoldable pub sentence_fragments : Option (List WikiContentFragment)
  unfolding split_sentences wikitext_to_plain fragments_of
  sentence_fragments = do
    sentences ← split_sentences u (wikitext_to_plain u s.wikitext)
    some (fragments_of sentences)

module _ (u : Unicode) (refs : List LocatedRef) where
  unfoldable pub sections_fragments : List WikiSectionSpan → Option (List WikiContentFragment)
  unfolding section_fragment sentence_fragments
  sections_fragments [] = some []
  sections_fragments (s ∷ ss) = do
    sentences ← sentence_fragments u refs s
    rest ← sections_fragments ss
    some (section_fragment u s refs ∷ (sentences ++ rest))

abbrev pub box_list : Option WikiContentFragment → List WikiContentFragment
box_list none = []
box_list (some f) = f ∷ []

unfoldable pub fragment_wikitext : Unicode → Text → Option (List WikiContentFragment)
unfolding locate_refs infobox_fragment split_wiki_sections sections_fragments
fragment_wikitext u wikitext = do
  boxed ← infobox_fragment u wikitext
  rest ← sections_fragments u (locate_refs wikitext) (split_wiki_sections wikitext)
  some (box_list boxed ++ rest)
