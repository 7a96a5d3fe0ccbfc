-- ===== src/Wiki/Fragments/Parents.antt =====
-- Sentences stand behind the fragment of their section.
use talaria_v.Base.{◌≡◌, refl, List, [], ◌∷◌, ◌++◌, Option, some}
use talaria_v.Text.{Text}
use talaria_v.Text.Unicode.{Unicode}
use talaria_v.Wiki.Plain.{wikitext_to_plain}
use talaria_v.Wiki.Sections.{WikiSectionSpan, split_wiki_sections}
use talaria_v.Wiki.Sentences.{SentenceSpan, split_sentences}
use talaria_v.Wiki.Sentences.Sound.{split_sentences-InOrder}
use talaria_v.Wiki.Fragments.{
  section, sentence, WikiContentFragment, infobox_fragment, section_fragment, sentence_fragment,
  fragments_of, sentence_fragments, sections_fragments, box_list, fragment_wikitext,
}
use talaria_v.Wiki.Fragments.Refs.{LocatedRef, locate_refs}

-- The fragment of a section.
abbrev pub IsSection : WikiSectionSpan → WikiContentFragment → Type 0
IsSection s f =
    (f.kind ≡ section)
    × ((f.ordinal ≡ s.ordinal)
        × ((f.text ≡ s.wikitext)
            × ((f.start_offset ≡ s.start_offset)
                × ((f.end_offset ≡ s.end_offset) × (f.section_path ≡ s.title ∷ [])))))

-- The fragment of a sentence, which names the section as its parent and its path.
abbrev pub IsChild : WikiSectionSpan → SentenceSpan → WikiContentFragment → Type 0
IsChild s sent f =
    (f.kind ≡ sentence)
    × ((f.parent_section_ordinal ≡ some s.ordinal)
        × ((f.section_path ≡ s.title ∷ []) × ((f.text ≡ sent.text) × (f.ordinal ≡ sent.ordinal))))

-- One fragment for each sentence, in order.
abbrev pub OneEach : WikiSectionSpan → List SentenceSpan → List WikiContentFragment → Type 0
OneEach s [] [] = Unit
OneEach s [] (f ∷ frags) = ⊥
OneEach s (sent ∷ sents) [] = ⊥
OneEach s (sent ∷ sents) (f ∷ frags) = IsChild s sent f × OneEach s sents frags

-- A section and the sentences of its plain text, at the front of the fragments.
pub record Group (u : Unicode) (s : WikiSectionSpan) (frags : List WikiContentFragment)
    : Type 0 where
  pub head : WikiContentFragment
  pub sentences : List SentenceSpan
  pub children : List WikiContentFragment
  pub rest : List WikiContentFragment
  pub splits : frags ≡ head ∷ (children ++ rest)
  pub is_section : IsSection s head
  pub split : split_sentences u (wikitext_to_plain u s.wikitext) ≡ some sentences
  pub one_each : OneEach s sentences children

-- The sections one by one, each before its sentences.
abbrev pub Grouped : Unicode → List WikiSectionSpan → List WikiContentFragment → Type 0
Grouped u [] frags = frags ≡ []
Grouped u (s ∷ ss) frags = (g : Group u s frags) × Grouped u ss g.rest

module _ (u : Unicode) (refs : List LocatedRef) where
  fragments_of-OneEach :
      (s : WikiSectionSpan) (sents : List SentenceSpan)
      → OneEach s sents (fragments_of u refs s sents)
  unfolding fragments_of sentence_fragment
  fragments_of-OneEach s [] = tt
  fragments_of-OneEach s (sent ∷ sents) =
      ((refl, (refl, (refl, (refl, refl)))), fragments_of-OneEach s sents)

  section_fragment-IsSection : (s : WikiSectionSpan) → IsSection s (section_fragment u s refs)
  unfolding section_fragment
  section_fragment-IsSection s = (refl, (refl, (refl, (refl, (refl, refl)))))

  sentence_fragments-some :
      (s : WikiSectionSpan) (sents : List SentenceSpan)
      → split_sentences u (wikitext_to_plain u s.wikitext) ≡ some sents
      → sentence_fragments u refs s ≡ some (fragments_of u refs s sents)
  unfolding sentence_fragments
  sentence_fragments-some s sents e = rw (sentence_fragments, e) refl

  sections_fragments-Grouped :
      (ss : List WikiSectionSpan)
      → (frags : List WikiContentFragment) × ((sections_fragments u refs ss ≡ some frags)
          × Grouped u ss frags)
  unfolding sections_fragments
  sections_fragments-Grouped [] = ([], (refl, refl))
  sections_fragments-Grouped (s ∷ ss) =
      let (sents, (e, order)) = split_sentences-InOrder u (wikitext_to_plain u s.wikitext) in
      let (others, (f, grouped)) = sections_fragments-Grouped ss in
      let children : List WikiContentFragment = fragments_of u refs s sents in
      (
        section_fragment u s refs ∷ (children ++ others),
        (
          rw (sections_fragments, sentence_fragments-some s sents e, f) refl,
          (
            record {
              head = section_fragment u s refs;
              sentences = sents;
              children = children;
              rest = others;
              splits = refl;
              is_section = section_fragment-IsSection s;
              split = e;
              one_each = fragments_of-OneEach s sents;
            },
            grouped,
          ),
        ),
      )

-- Where reading the infobox does not panic, splitting a wikitext into fragments does not either: it
-- returns the infobox, if there is one, and then for every section in order its fragment, with the
-- text, offsets and title of the section, followed by one fragment for each sentence of its plain
-- text, in order, with the text and the ordinal of the sentence and the section as its parent.
pub fragment_wikitext-Grouped :
    (u : Unicode) (wikitext : Text) (boxed : Option WikiContentFragment)
    → infobox_fragment u wikitext ≡ some boxed
    → (frags : List WikiContentFragment) × ((fragment_wikitext u wikitext
          ≡ some (box_list boxed ++ frags))
        × Grouped u (split_wiki_sections wikitext) frags)
unfolding fragment_wikitext
fragment_wikitext-Grouped u wikitext boxed e =
    let (frags, (f, grouped)) =
      sections_fragments-Grouped u (locate_refs wikitext) (split_wiki_sections wikitext) in
    (frags, (rw (fragment_wikitext, e, f) refl, grouped))
