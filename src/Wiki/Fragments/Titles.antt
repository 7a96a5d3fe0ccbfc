-- ===== src/Wiki/Fragments/Titles.antt =====
-- The identifiers of Wikidata on the links of fragments: `apply_title_qids`.
use talaria_v.Base.{
  ◌≡◌, refl, ◌∙◌, List, [], ◌∷◌, ◌++◌, Option, none, some, ◌>>=◌, map, All, All-append, ◌⊎◌, inl,
  inr, ap, subst, drop, sym,
}
use talaria_v.Text.{Text, codes}
use talaria_v.Text.Unicode.{Unicode}
use talaria_v.Wiki.Sections.{WikiSectionSpan, split_wiki_sections}
use talaria_v.Wiki.Sentences.{SentenceSpan, split_sentences}
use talaria_v.Wiki.Plain.{wikitext_to_plain}
use talaria_v.Wiki.Links.{WikiLink, extract_wikilinks}
use talaria_v.Wiki.Infobox.{InfoboxField, parse_infobox_fields}
use talaria_v.Wiki.{find_template_end}
use talaria_v.Wiki.Fragments.Refs.{LocatedRef, locate_refs, find_ascii_ci}
use talaria_v.Wiki.Fragments.{
  FragmentLink, WikiContentFragment, to_fragment_link, infobox_between, infobox_found, infobox_from,
  infobox_fragment, section_fragment, sentence_fragment, fragments_of, sentence_fragments,
  sections_fragments, box_list, fragment_wikitext,
}

-- `a.or_else(|| b)`
abbrev or_surface : Option Text → Option Text → Option Text
or_surface (some qid) b = some qid
or_surface none b = b

-- `titles.get(target).or_else(|| titles.get(surface))`; the map is a function.
abbrev pub lookup_link : (Text → Option Text) → FragmentLink → Option Text
lookup_link titles link = or_surface (titles link.target_title) (titles link.surface)

abbrev set_qid : FragmentLink → Option Text → FragmentLink
set_qid link none = link
set_qid link (some qid) = record link { qid = some qid }

unfoldable pub fill_link : (Text → Option Text) → FragmentLink → FragmentLink
fill_link titles link = set_qid link (lookup_link titles link)

abbrev fill_links : (Text → Option Text) → WikiContentFragment → WikiContentFragment
fill_links titles f = record f { internal_links = map (fill_link titles) f.internal_links }

unfoldable pub apply_title_qids :
    (Text → Option Text) → List WikiContentFragment → List WikiContentFragment
unfolding fill_link
apply_title_qids titles frags = map (fill_links titles) frags

abbrev IsUnresolved : WikiContentFragment → Type 0
IsUnresolved f = All (λ l. l.qid ≡ none) f.internal_links

-- The link has the identifier of its target title if that is known, and else what its surface has.
abbrev pub IsFilled : (Text → Option Text) → FragmentLink → Type 0
IsFilled titles l =
    ((qid : Text) × ((titles l.target_title ≡ some qid) × (l.qid ≡ some qid)))
    ⊎ ((titles l.target_title ≡ none) × (l.qid ≡ titles l.surface))

abbrev pub IsResolved : (Text → Option Text) → WikiContentFragment → Type 0
IsResolved titles f = All (IsFilled titles) f.internal_links

links-Unresolved : (links : List WikiLink) → All (λ l. l.qid ≡ none) (map to_fragment_link links)
unfolding to_fragment_link
links-Unresolved [] = tt
links-Unresolved (l ∷ links) = (refl, links-Unresolved links)

abbrev Listed : Option (List WikiContentFragment) → Type 0
Listed none = Unit
Listed (some frags) = All IsUnresolved frags

abbrev Boxed : Option (Option WikiContentFragment) → Type 0
Boxed none = Unit
Boxed (some boxed) = All IsUnresolved (box_list boxed)

module _ (u : Unicode) (wikitext : Text) where
  fields-Boxed :
      (before behind : Text) (fields : Option (List InfoboxField))
      → Boxed (do fs ← fields; some (some (infobox_between u wikitext before behind fs)))
  fields-Boxed before behind none = tt
  fields-Boxed before behind (some fs) = (links-Unresolved _, tt)

  found-Boxed : (before : Text) (end : Option Text) → Boxed (infobox_found u wikitext before end)
  found-Boxed before none = tt
  found-Boxed before (some behind) = fields-Boxed before behind (parse_infobox_fields u wikitext)

  from-Boxed : (o : Option (Text × Text)) → Boxed (infobox_from u wikitext o)
  from-Boxed none = tt
  from-Boxed (some (before, found)) = found-Boxed before (find_template_end (drop 2 found))

  infobox-Boxed : Boxed (infobox_fragment u wikitext)
  unfolding infobox_fragment
  infobox-Boxed = from-Boxed (find_ascii_ci wikitext (codes "{{infobox"))

module _ (u : Unicode) (refs : List LocatedRef) where
  section-Unresolved : (s : WikiSectionSpan) → IsUnresolved (section_fragment u s refs)
  unfolding section_fragment
  section-Unresolved s = links-Unresolved (extract_wikilinks u s.wikitext)

  sentences-Unresolved :
      (s : WikiSectionSpan) (sents : List SentenceSpan)
      → All IsUnresolved (fragments_of u refs s sents)
  unfolding fragments_of sentence_fragment
  sentences-Unresolved s [] = tt
  sentences-Unresolved s (sent ∷ sents) = (links-Unresolved _, sentences-Unresolved s sents)

  split-Listed :
      (s : WikiSectionSpan) (o : Option (List SentenceSpan))
      → Listed (do sents ← o; some (fragments_of u refs s sents))
  split-Listed s none = tt
  split-Listed s (some sents) = sentences-Unresolved s sents

  section-Listed :
      (s : WikiSectionSpan) (a b : Option (List WikiContentFragment))
      → Listed a
      → Listed b
      → Listed (do xs ← a; ys ← b; some (section_fragment u s refs ∷ (xs ++ ys)))
  section-Listed s none b h k = tt
  section-Listed s (some xs) none h k = tt
  section-Listed s (some xs) (some ys) h k =
      (section-Unresolved s, All-append IsUnresolved xs ys h k)

  sections-Listed : (ss : List WikiSectionSpan) → Listed (sections_fragments u refs ss)
  unfolding sections_fragments sentence_fragments
  sections-Listed [] = tt
  sections-Listed (s ∷ ss) =
      section-Listed s (sentence_fragments u refs s) (sections_fragments u refs ss)
        (split-Listed s (split_sentences u (wikitext_to_plain u s.wikitext))) (sections-Listed ss)

joined-Listed :
    (a : Option (Option WikiContentFragment)) (b : Option (List WikiContentFragment))
    → Boxed a
    → Listed b
    → Listed (do boxed ← a; rest ← b; some (box_list boxed ++ rest))
joined-Listed none b h k = tt
joined-Listed (some boxed) none h k = tt
joined-Listed (some boxed) (some rest) h k = All-append IsUnresolved (box_list boxed) rest h k

fragment_wikitext-Listed : (u : Unicode) (wikitext : Text) → Listed (fragment_wikitext u wikitext)
unfolding fragment_wikitext
fragment_wikitext-Listed u wikitext =
    joined-Listed (infobox_fragment u wikitext)
      (sections_fragments u (locate_refs wikitext) (split_wiki_sections wikitext))
      (infobox-Boxed u wikitext)
      (sections-Listed u (locate_refs wikitext) (split_wiki_sections wikitext))

qid-set_qid : (l : FragmentLink) (o : Option Text) → l.qid ≡ none → (set_qid l o).qid ≡ o
qid-set_qid l none h = h
qid-set_qid l (some q) h = refl

lookup_link-set_qid :
    (titles : Text → Option Text) (l : FragmentLink) (o : Option Text)
    → lookup_link titles (set_qid l o) ≡ lookup_link titles l
lookup_link-set_qid titles l none = refl
lookup_link-set_qid titles l (some q) = refl

fill_link-IsResolved :
    (titles : Text → Option Text) (l : FragmentLink)
    → l.qid ≡ none
    → (fill_link titles l).qid ≡ lookup_link titles (fill_link titles l)
unfolding fill_link
fill_link-IsResolved titles l h =
    qid-set_qid l (lookup_link titles l) h
    ∙ sym (lookup_link-set_qid titles l (lookup_link titles l))

-- A fragment without the identifiers of its links.
abbrev clear_link : FragmentLink → FragmentLink
clear_link l = record l { qid = none }

abbrev pub clear_links : WikiContentFragment → WikiContentFragment
clear_links f = record f { internal_links = map clear_link f.internal_links }

clear-set_qid : (l : FragmentLink) (o : Option Text) → l.qid ≡ none → clear_link (set_qid l o) ≡ l
clear-set_qid l none h = ap (λ q. record l { qid = q }) (sym h)
clear-set_qid l (some q) h = ap (λ p. record l { qid = p }) (sym h)

clear-fill_links :
    (titles : Text → Option Text) (links : List FragmentLink)
    → All (λ l. l.qid ≡ none) links
    → map clear_link (map (fill_link titles) links) ≡ links
unfolding fill_link
clear-fill_links titles [] h = refl
clear-fill_links titles (l ∷ links) h =
    cc (clear-set_qid l (lookup_link titles l) h.0, clear-fill_links titles links h.1)

clear-apply :
    (titles : Text → Option Text) (frags : List WikiContentFragment)
    → All IsUnresolved frags
    → map clear_links (apply_title_qids titles frags) ≡ frags
unfolding apply_title_qids
clear-apply titles [] h = refl
clear-apply titles (f ∷ frags) h = cc (
  ap (λ ls. record f { internal_links = ls }) (clear-fill_links titles f.internal_links h.0),
  clear-apply titles frags h.1,
)

or_surface-cases :
    (a b o : Option Text)
    → o ≡ or_surface a b
    → ((qid : Text) × ((a ≡ some qid) × (o ≡ some qid))) ⊎ ((a ≡ none) × (o ≡ b))
or_surface-cases none b o h = inr (refl, h)
or_surface-cases (some qid) b o h = inl (qid, (refl, h))

looked_up-IsFilled :
    (titles : Text → Option Text) (l : FragmentLink)
    → l.qid ≡ lookup_link titles l
    → IsFilled titles l
looked_up-IsFilled titles l = or_surface-cases (titles l.target_title) (titles l.surface) l.qid

fill_links-IsResolved :
    (titles : Text → Option Text) (links : List FragmentLink)
    → All (λ l. l.qid ≡ none) links
    → All (IsFilled titles) (map (fill_link titles) links)
fill_links-IsResolved titles [] h = tt
fill_links-IsResolved titles (l ∷ links) h = (
  looked_up-IsFilled titles (fill_link titles l) (fill_link-IsResolved titles l h.0),
  fill_links-IsResolved titles links h.1,
)

apply-IsResolved :
    (titles : Text → Option Text) (frags : List WikiContentFragment)
    → All IsUnresolved frags
    → All (IsResolved titles) (apply_title_qids titles frags)
unfolding apply_title_qids
apply-IsResolved titles [] h = tt
apply-IsResolved titles (f ∷ frags) h =
    (fill_links-IsResolved titles f.internal_links h.0, apply-IsResolved titles frags h.1)

-- On the fragments of a wikitext, filling in the identifiers gives every link the identifier of its
-- target title where that is known, or else that of its surface, and no identifier where neither is a
-- known title. It changes nothing else: without the identifiers the fragments are as before.
pub apply_title_qids-IsResolved :
    (u : Unicode) (wikitext : Text) (titles : Text → Option Text) (frags : List WikiContentFragment)
    → fragment_wikitext u wikitext ≡ some frags
    → All (IsResolved titles) (apply_title_qids titles frags)
      × (map clear_links (apply_title_qids titles frags) ≡ frags)
apply_title_qids-IsResolved u wikitext titles frags e =
    let unresolved : All IsUnresolved frags =
      subst Listed e (fragment_wikitext-Listed u wikitext) in
    (apply-IsResolved titles frags unresolved, clear-apply titles frags unresolved)
