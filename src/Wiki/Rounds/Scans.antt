-- ===== src/Wiki/Rounds/Scans.antt =====
-- The scans for headings and references, and all loops together.
use talaria_v.Base.{
  ℕ, zero, suc, ◌+◌, ◌≡◌, refl, subst, ◌<◌, ◌≤◌, Bool, true, false, List, [], ◌∷◌, Option, none,
  some, length, drop, length-drop, arith, Option-cases, leb, take, Bool-cases, inl, inr,
}
use talaria_v.Text.{
  Text, codes, starts_with, byte_len, utf8_width, trim_end_matches, is_whitespace,
  to_ascii_lowercase, trim,
}
use talaria_v.Text.Find.{find_split}
use talaria_v.Text.Unicode.{Unicode}
use talaria_v.Wiki.Plain.{strip_html_comments, remove_templates, simplify_wiki_links}
use talaria_v.Wiki.Sections.{as_i32}
use talaria_v.Wiki.Sentences.{
  heading_parts, is_heading, parts_length, heading_spans_from, wiki_heading_spans,
}
use talaria_v.Wiki.Fragments.Refs.{
  find_ascii_ci, is_ref_open_at, parse_ref_name, LocatedRef, locate_refs_from, locate_refs,
}
use talaria_v.PlaceQuality.{ends_with}
use talaria_v.Wiki.Links.{extract_wikilinks}
use talaria_v.Wiki.Rounds.{
  found-Cuts, CommentsLoop, comments-CommentsLoop, TemplatesLoop, templates-TemplatesLoop,
  LinksLoop, links-LinksLoop, WikilinksLoop, wikilinks-WikilinksLoop,
}

heading_marks :
    (s : Text) → is_heading (heading_parts s) ≡ true → 0 < parts_length (heading_parts s)
unfolding is_heading heading_parts
heading_marks s h = ground (arith, h)

-- The loop of `wiki_heading_spans` from the offset `i` on.
pub data HeadingsLoop : ℕ → Text → List (ℕ × ℕ) → Type 0 where
  at_end : {i : ℕ} {s : Text} → byte_len s ≤ 4 → HeadingsLoop i s []
  no_heading :
      {i c : ℕ} {s : Text} {r : List (ℕ × ℕ)}
      → 4 < byte_len (c ∷ s)
      → is_heading (heading_parts (c ∷ s)) ≡ false
      → HeadingsLoop (i + utf8_width c) s r
      → HeadingsLoop i (c ∷ s) r
  heading_read :
      {i c : ℕ} {s : Text} {r : List (ℕ × ℕ)} {n end : ℕ}
      → 4 < byte_len (c ∷ s)
      → is_heading (heading_parts (c ∷ s)) ≡ true
      → n ≡ parts_length (heading_parts (c ∷ s))
      → end ≡ i + byte_len (take n (c ∷ s))
      → HeadingsLoop end (drop n (c ∷ s)) r
      → HeadingsLoop i (c ∷ s) ((i, end) ∷ r)

byte_len-nil : byte_len [] ≤ 4
unfolding byte_len
byte_len-nil = omega arith

headings-HeadingsLoop :
    (f i : ℕ) (s : Text) → length s ≤ f → HeadingsLoop i s (heading_spans_from f i s)
unfolding heading_spans_from
headings-HeadingsLoop zero i [] h = at_end byte_len-nil
headings-HeadingsLoop zero i (c ∷ s) h = absurd (omega arith)
headings-HeadingsLoop (suc f) i [] h = at_end byte_len-nil
headings-HeadingsLoop (suc f) i (c ∷ s) h = elim (Bool-cases (leb (byte_len (c ∷ s)) 4)) [
  | inl short ↦ rw (heading_spans_from, short) (at_end (ground (arith, short)))
  | inr long ↦ elim (Bool-cases (is_heading (heading_parts (c ∷ s)))) [
    | inr e ↦
        rw (heading_spans_from, long, e)
          (no_heading (ground (arith, long)) e
            (headings-HeadingsLoop f (i + utf8_width c) s (omega arith)))
    | inl e ↦
        let n : ℕ = parts_length (heading_parts (c ∷ s)) in
        let end : ℕ = i + byte_len (take n (c ∷ s)) in
        let marks = heading_marks (c ∷ s) e in
        let left = length-drop n (c ∷ s) in
        rw (heading_spans_from, long, e)
          (heading_read (ground (arith, long)) e refl refl
            (headings-HeadingsLoop f end (drop n (c ∷ s)) (omega arith)))
  ]
]

-- The text from a match on is no longer than the text.
abbrev Within : Text → Option (Text × Text) → Type 0
Within s none = Unit
Within s (some (before, from)) = length from ≤ length s

Within-cons :
    (s : Text) (c : ℕ) (o : Option (Text × Text))
    → Within s o
    → Within (c ∷ s) (elim o [ none ↦ none | some (before, from) ↦ some (c ∷ before, from) ])
Within-cons s c none h = tt
Within-cons s c (some (before, from)) h = omega (arith, h)

find_ascii_ci-Within : (s needle : Text) → Within s (find_ascii_ci s needle)
unfolding find_ascii_ci
find_ascii_ci-Within [] needle = tt
find_ascii_ci-Within (c ∷ s) needle =
    elim (Bool-cases (starts_with (to_ascii_lowercase (c ∷ s)) needle)) [
      | inl e ↦ rw (find_ascii_ci, e) (omega arith)
      | inr e ↦
          rw (find_ascii_ci, e)
            (Within-cons s c (find_ascii_ci s needle) (find_ascii_ci-Within s needle))
    ]

-- What a reference says, where it begins behind `i` characters.
abbrev ref_at : ℕ → Text → Text → LocatedRef
ref_at i attrs text = record {
  citation = record { ref_name = parse_ref_name attrs; text = trim text };
  start_char = as_i32 i;
}

abbrev closes_itself : Text → Bool
closes_itself attrs = ends_with (trim_end_matches is_whitespace attrs) (codes "/")

-- The loop of `locate_refs` behind `i` characters.
pub data RefsLoop : ℕ → Text → List LocatedRef → Type 0 where
  refs_end : {i : ℕ} → RefsLoop i [] []
  no_ref :
      {i c : ℕ} {s : Text} {r : List LocatedRef}
      → is_ref_open_at (c ∷ s) ≡ false
      → RefsLoop (i + 1) s r
      → RefsLoop i (c ∷ s) r
  open_tag :
      {i c : ℕ} {s : Text}
      → is_ref_open_at (c ∷ s) ≡ true
      → find_split (codes ">") (drop 4 (c ∷ s)) ≡ none
      → RefsLoop i (c ∷ s) []
  closed_tag :
      {i c : ℕ} {s attrs behind : Text} {r : List LocatedRef}
      → is_ref_open_at (c ∷ s) ≡ true
      → find_split (codes ">") (drop 4 (c ∷ s)) ≡ some (attrs, behind)
      → closes_itself attrs ≡ true
      → RefsLoop (i + 4 + length attrs + 1) behind r
      → RefsLoop i (c ∷ s) r
  open_ref :
      {i c : ℕ} {s attrs behind : Text} {r : List LocatedRef}
      → is_ref_open_at (c ∷ s) ≡ true
      → find_split (codes ">") (drop 4 (c ∷ s)) ≡ some (attrs, behind)
      → closes_itself attrs ≡ false
      → find_ascii_ci behind (codes "</ref>") ≡ none
      → RefsLoop (i + 4 + length attrs + 1) behind r
      → RefsLoop i (c ∷ s) r
  ref_read :
      {i c : ℕ} {s attrs behind text close : Text} {r : List LocatedRef}
      → is_ref_open_at (c ∷ s) ≡ true
      → find_split (codes ">") (drop 4 (c ∷ s)) ≡ some (attrs, behind)
      → closes_itself attrs ≡ false
      → find_ascii_ci behind (codes "</ref>") ≡ some (text, close)
      → RefsLoop (i + 4 + length attrs + 1 + length text + 6) (drop 6 close) r
      → RefsLoop i (c ∷ s) (ref_at i attrs text ∷ r)

refs-RefsLoop : (f i : ℕ) (s : Text) → length s ≤ f → RefsLoop i s (locate_refs_from f i s)
unfolding locate_refs_from codes
refs-RefsLoop zero i [] h = refs_end
refs-RefsLoop zero i (c ∷ s) h = absurd (omega arith)
refs-RefsLoop (suc f) i [] h = refs_end
refs-RefsLoop (suc f) i (c ∷ s) h = elim (Bool-cases (is_ref_open_at (c ∷ s))) [
  | inr e ↦ rw (locate_refs_from, e) (no_ref e (refs-RefsLoop f (i + 1) s (omega arith)))
  | inl e ↦ elim (Option-cases (find_split (codes ">") (drop 4 (c ∷ s)))) [
    | inl d ↦ rw (locate_refs_from, e, d) (open_tag e d)
    | inr ((attrs, behind), d) ↦
        let next : ℕ = i + 4 + length attrs + 1 in
        let cut = found-Cuts (codes ">") (drop 4 (c ∷ s)) attrs behind d in
        let left = length-drop 4 (c ∷ s) in
        elim (Bool-cases (closes_itself attrs)) [
          | inl k ↦
              rw (locate_refs_from, e, d, k)
                (closed_tag e d k (refs-RefsLoop f next behind (omega arith)))
          | inr k ↦ elim (Option-cases (find_ascii_ci behind (codes "</ref>"))) [
            | inl g ↦
                rw (locate_refs_from, e, d, k, g)
                  (open_ref e d k g (refs-RefsLoop f next behind (omega arith)))
            | inr ((text, close), g) ↦
                let within : length close ≤ length behind =
                  subst (Within behind) g (find_ascii_ci-Within behind (codes "</ref>")) in
                let rest = length-drop 6 close in
                rw (locate_refs_from, e, d, k, g)
                  (ref_read e d k g
                    (refs-RefsLoop f (next + length text + 6) (drop 6 close) (omega arith)))
          ]
        ]
  ]
]

-- On every text the loops over comments, templates, links, headings and references end by their own
-- tests: what the program's functions answer on a round for each character is what the loops answer
-- with no bound on their rounds.
pub rounds-terminate :
    (u : Unicode) (s : Text)
    → CommentsLoop s (strip_html_comments s)
      × (TemplatesLoop s (remove_templates s)
          × (LinksLoop u s (simplify_wiki_links u s)
              × (WikilinksLoop u s (extract_wikilinks u s)
                  × (HeadingsLoop 0 s (wiki_heading_spans s) × RefsLoop 0 s (locate_refs s)))))
unfolding strip_html_comments remove_templates simplify_wiki_links extract_wikilinks
    wiki_heading_spans locate_refs
rounds-terminate u s = (
  comments-CommentsLoop (length s) s (omega arith),
  (
    templates-TemplatesLoop (length s) s (omega arith),
    (
      links-LinksLoop u (length s) s (omega arith),
      (
        wikilinks-WikilinksLoop u (length s) s (omega arith),
        (
          headings-HeadingsLoop (length s) 0 s (omega arith),
          refs-RefsLoop (length s) 0 s (omega arith),
        ),
      ),
    ),
  ),
)
