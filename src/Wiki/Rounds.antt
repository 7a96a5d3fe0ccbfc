-- ===== src/Wiki/Rounds.antt =====
-- The loops over wikitext as relations, with no bound on their rounds: what runs on fuel is what they
-- answer.
pub mod Scans
use talaria_v.Base.{
  ℕ, zero, suc, ◌+◌, ◌-◌, ◌≡◌, refl, sym, subst, ◌∙◌, ap, ◌<◌, ◌≤◌, Bool, true, false, ◌&&◌, List,
  [], ◌∷◌, ◌++◌, Option, none, some, ◌==◌, if◌then◌else◌, length, length-append, drop, length-drop,
  arith, Option-cases, leb, take, Bool-cases, inl, inr,
}
use talaria_v.Text.{
  Text, codes, starts_with, byte_len, utf8_width, trim_end_matches, is_whitespace,
  to_ascii_lowercase, trim,
}
use talaria_v.Text.Find.{find_split}
use talaria_v.Text.Unicode.{Unicode}
use talaria_v.Wiki.{template_rest_at, find_template_end}
use talaria_v.Wiki.Plain.{
  strip_comments, strip_html_comments, remove_templates_from, remove_templates, link_text,
  simplify_links_from, simplify_wiki_links,
}
use talaria_v.Wiki.Sections.{as_i32}
use talaria_v.Wiki.Sentences.{
  heading_parts, is_heading, parts_length, heading_spans_from, wiki_heading_spans,
}
use talaria_v.Wiki.Fragments.Refs.{
  FragmentCitation, find_ascii_ci, is_ref_open_at, parse_ref_name, LocatedRef, locate_refs_from,
  locate_refs,
}
use talaria_v.PlaceQuality.{ends_with}
use talaria_v.Wiki.Links.{WikiLink, wikilink, onto, wikilinks_from, extract_wikilinks}

starts_with-length : (s t : Text) → starts_with s t ≡ true → length t ≤ length s
unfolding starts_with
starts_with-length s [] h = omega arith
starts_with-length [] (d ∷ t) h = absurd (ground (arith, h))
starts_with-length (c ∷ s) (d ∷ t) h = ground (arith, h, starts_with-length s t)

-- The text falls into what is before the needle, the needle and what is behind it.
abbrev Cuts : Text → Text → Option (Text × Text) → Type 0
Cuts needle s none = Unit
Cuts needle s (some (before, behind)) = length before + length needle + length behind ≡ length s

Cuts-cons :
    (needle s : Text) (c : ℕ) (o : Option (Text × Text))
    → Cuts needle s o
    → Cuts needle
        (c ∷ s)
        (elim o [ none ↦ none | some (before, behind) ↦ some (c ∷ before, behind) ])
Cuts-cons needle s c none h = tt
Cuts-cons needle s c (some (before, behind)) h = omega (arith, h)

pub find_split-Cuts : (needle s : Text) → Cuts needle s (find_split needle s)
unfolding find_split
find_split-Cuts needle [] = elim (Bool-cases (starts_with [] needle)) [
  | inl e ↦ rw (find_split, e) (short (starts_with-length [] needle e))
  | inr e ↦ rw (find_split, e) tt
]
  where
    short : length needle ≤ 0 → 0 + length needle + 0 ≡ 0
    short h = omega arith
find_split-Cuts needle (c ∷ s) = elim (Bool-cases (starts_with (c ∷ s) needle)) [
  | inl e ↦
      let fits = starts_with-length (c ∷ s) needle e in
      let left = length-drop (length needle) (c ∷ s) in rw (find_split, e) (omega arith)
  | inr e ↦
      rw (find_split, e) (Cuts-cons needle s c (find_split needle s) (find_split-Cuts needle s))
]

-- What is behind the end of a template is shorter than what is behind its beginning.
abbrev Shorter : Text → Option Text → Type 0
Shorter s none = Unit
Shorter s (some rest) = length rest < length s

Shorter-cons : (c : ℕ) (s : Text) (o : Option Text) → Shorter s o → Shorter (c ∷ s) o
Shorter-cons c s none h = tt
Shorter-cons c s (some rest) h = omega (arith, h)

template_rest_at-Shorter : (d : ℕ) (s : Text) → Shorter s (template_rest_at d s)
unfolding template_rest_at
template_rest_at-Shorter d [] = tt
template_rest_at-Shorter d (c ∷ []) = tt
template_rest_at-Shorter d (c ∷ e ∷ s) = elim (Bool-cases (c == b'{' && e == b'{')) [
  | inl opening ↦
      rw (template_rest_at, opening)
        (twice (template_rest_at (suc d) s) (template_rest_at-Shorter (suc d) s))
  | inr other ↦ elim (Bool-cases (c == b'}' && e == b'}')) [
    | inr neither ↦
        rw (template_rest_at, other, neither)
          (Shorter-cons c (e ∷ s) (template_rest_at d (e ∷ s)) (template_rest_at-Shorter d (e ∷ s)))
    | inl close ↦ elim (Bool-cases (d == 1)) [
      | inl last ↦ rw (template_rest_at, other, close, last) (omega arith)
      | inr inner ↦
          rw (template_rest_at, other, close, inner)
            (twice (template_rest_at (d - 1) s) (template_rest_at-Shorter (d - 1) s))
    ]
  ]
]
  where
    twice : (o : Option Text) → Shorter s o → Shorter (c ∷ e ∷ s) o
    twice o h = Shorter-cons c (e ∷ s) o (Shorter-cons e s o h)

pub found-Cuts :
    (needle s before behind : Text)
    → find_split needle s ≡ some (before, behind)
    → length before + length needle + length behind ≡ length s
found-Cuts needle s before behind e = subst (Cuts needle s) e (find_split-Cuts needle s)

-- `while let Some(start) = rest.find("<!--")`, from the text to the result.
pub data CommentsLoop : Text → Text → Type 0 where
  no_comment : {s : Text} → find_split (codes "<!--") s ≡ none → CommentsLoop s s
  open_comment :
      {s before behind : Text}
      → find_split (codes "<!--") s ≡ some (before, behind)
      → find_split (codes "-->") (codes "<!--" ++ behind) ≡ none
      → CommentsLoop s (before ++ s)
  comment_off :
      {s before behind comment after r : Text}
      → find_split (codes "<!--") s ≡ some (before, behind)
      → find_split (codes "-->") (codes "<!--" ++ behind) ≡ some (comment, after)
      → CommentsLoop after r
      → CommentsLoop s (before ++ r)

pub comments-CommentsLoop : (f : ℕ) (s : Text) → length s ≤ f → CommentsLoop s (strip_comments f s)
unfolding strip_comments find_split starts_with codes
comments-CommentsLoop zero [] h = no_comment refl
comments-CommentsLoop zero (c ∷ s) h = absurd (omega arith)
comments-CommentsLoop (suc f) s h = elim (Option-cases (find_split (codes "<!--") s)) [
  | inl e ↦ rw (strip_comments, e) (no_comment e)
  | inr ((before, behind), e) ↦
      elim (Option-cases (find_split (codes "-->") (codes "<!--" ++ behind))) [
        | inl d ↦ rw (strip_comments, e, d) (open_comment e d)
        | inr ((comment, after), d) ↦
            let opened = found-Cuts (codes "<!--") s before behind e in
            let closed = found-Cuts (codes "-->") (codes "<!--" ++ behind) comment after d in
            rw (strip_comments, e, d)
              (comment_off e d (comments-CommentsLoop f after (omega arith)))
      ]
]

-- The loop of `remove_templates`.
pub data TemplatesLoop : Text → Text → Type 0 where
  no_template : {s : Text} → find_split (codes "{{") s ≡ none → TemplatesLoop s s
  open_template :
      {s before after : Text}
      → find_split (codes "{{") s ≡ some (before, after)
      → find_template_end after ≡ none
      → TemplatesLoop s (before ++ b' ' ∷ after)
  template_off :
      {s before after behind r : Text}
      → find_split (codes "{{") s ≡ some (before, after)
      → find_template_end after ≡ some behind
      → TemplatesLoop (before ++ b' ' ∷ behind) r
      → TemplatesLoop s r

template_shorter :
    (after behind : Text) → find_template_end after ≡ some behind → length behind < length after
unfolding find_template_end
template_shorter after behind e = subst (Shorter after) e (template_rest_at-Shorter 1 after)

pub templates-TemplatesLoop :
    (f : ℕ) (s : Text) → length s ≤ f → TemplatesLoop s (remove_templates_from f s)
unfolding remove_templates_from find_split starts_with codes
templates-TemplatesLoop zero [] h = no_template refl
templates-TemplatesLoop zero (c ∷ s) h = absurd (omega arith)
templates-TemplatesLoop (suc f) s h = elim (Option-cases (find_split (codes "{{") s)) [
  | inl e ↦ rw (remove_templates_from, e) (no_template e)
  | inr ((before, after), e) ↦ elim (Option-cases (find_template_end after)) [
    | inl d ↦ rw (remove_templates_from, e, d) (open_template e d)
    | inr (behind, d) ↦
        let opened = found-Cuts (codes "{{") s before after e in
        let closed = template_shorter after behind d in
        let left = length-append before (b' ' ∷ behind) in
        rw (remove_templates_from, e, d)
          (template_off e d (templates-TemplatesLoop f (before ++ b' ' ∷ behind) (omega arith)))
  ]
]

module _ (u : Unicode) where
  -- The loop of `simplify_wiki_links`.
  pub data LinksLoop : Text → Text → Type 0 where
    no_link : {s : Text} → find_split (codes "[[") s ≡ none → LinksLoop s s
    open_link :
        {s before after : Text}
        → find_split (codes "[[") s ≡ some (before, after)
        → find_split (codes "]]") after ≡ none
        → LinksLoop s (before ++ s)
    link_simplified :
        {s before after inner behind r : Text}
        → find_split (codes "[[") s ≡ some (before, after)
        → find_split (codes "]]") after ≡ some (inner, behind)
        → LinksLoop behind r
        → LinksLoop s (before ++ (link_text u inner ++ r))

  pub links-LinksLoop : (f : ℕ) (s : Text) → length s ≤ f → LinksLoop s (simplify_links_from u f s)
  unfolding simplify_links_from find_split starts_with codes
  links-LinksLoop zero [] h = no_link refl
  links-LinksLoop zero (c ∷ s) h = absurd (omega arith)
  links-LinksLoop (suc f) s h = elim (Option-cases (find_split (codes "[[") s)) [
    | inl e ↦ rw (simplify_links_from, e) (no_link e)
    | inr ((before, after), e) ↦ elim (Option-cases (find_split (codes "]]") after)) [
      | inl d ↦ rw (simplify_links_from, e, d) (open_link e d)
      | inr ((inner, behind), d) ↦
          let opened = found-Cuts (codes "[[") s before after e in
          let closed = found-Cuts (codes "]]") after inner behind d in
          rw (simplify_links_from, e, d)
            (link_simplified e d (links-LinksLoop f behind (omega arith)))
    ]
  ]

  -- The loop of `extract_wikilinks`.
  pub data WikilinksLoop : Text → List WikiLink → Type 0 where
    no_wikilink : {s : Text} → find_split (codes "[[") s ≡ none → WikilinksLoop s []
    open_wikilink :
        {s before after : Text}
        → find_split (codes "[[") s ≡ some (before, after)
        → find_split (codes "]]") after ≡ none
        → WikilinksLoop s []
    wikilink_read :
        {s before after inner behind : Text} {r : List WikiLink}
        → find_split (codes "[[") s ≡ some (before, after)
        → find_split (codes "]]") after ≡ some (inner, behind)
        → WikilinksLoop behind r
        → WikilinksLoop s (onto (wikilink u inner) r)

  pub wikilinks-WikilinksLoop :
      (f : ℕ) (s : Text) → length s ≤ f → WikilinksLoop s (wikilinks_from u f s)
  unfolding wikilinks_from find_split starts_with codes
  wikilinks-WikilinksLoop zero [] h = no_wikilink refl
  wikilinks-WikilinksLoop zero (c ∷ s) h = absurd (omega arith)
  wikilinks-WikilinksLoop (suc f) s h = elim (Option-cases (find_split (codes "[[") s)) [
    | inl e ↦ rw (wikilinks_from, e) (no_wikilink e)
    | inr ((before, after), e) ↦ elim (Option-cases (find_split (codes "]]") after)) [
      | inl d ↦ rw (wikilinks_from, e, d) (open_wikilink e d)
      | inr ((inner, behind), d) ↦
          let opened = found-Cuts (codes "[[") s before after e in
          let closed = found-Cuts (codes "]]") after inner behind d in
          rw (wikilinks_from, e, d)
            (wikilink_read e d (wikilinks-WikilinksLoop f behind (omega arith)))
    ]
  ]
