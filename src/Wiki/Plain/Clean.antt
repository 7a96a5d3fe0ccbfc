-- ===== src/Wiki/Plain/Clean.antt =====
-- What characters the plain text can hold.
use talaria_v.Base.{
  ℕ, zero, suc, ◌-◌, ◌≢◌, Bool, true, false, List, [], ◌∷◌, ◌++◌, keep, All, All-append, length,
  map, arith,
}
use talaria_v.Text.{Text, codes, trim, trim_start_matches, trim_end_matches, is_whitespace, join}
use talaria_v.Text.Unicode.{Unicode}
use talaria_v.Wiki.{onto_first, split_inclusive, strip_line_end, lines, erase_from, erase}
use talaria_v.Wiki.Plain.{
  strip_tags_in, strip_remaining_html_tags, strip_category_lines, keeps_line, collapse_from,
  collapse_whitespace, wikitext_to_plain, simplify_wiki_links, remove_templates,
  strip_self_closing_tags, strip_block_tags, strip_html_comments,
}

module _ (P : ℕ → Type 0) where
  All-trim_start : (p : ℕ → Bool) (s : Text) → All P s → All P (trim_start_matches p s)
  unfolding trim_start_matches
  All-trim_start p [] h = tt
  All-trim_start p (c ∷ s) h = ground (arith, All-trim_start p s h.1)

  All-trim_end : (p : ℕ → Bool) (s : Text) → All P s → All P (trim_end_matches p s)
  unfolding trim_end_matches
  All-trim_end p [] h = tt
  All-trim_end p (c ∷ s) h = ground (arith, All-trim_end p s h.1)

  All-trim : (s : Text) → All P s → All P (trim s)
  unfolding trim
  All-trim s h =
      All-trim_end is_whitespace (trim_start_matches is_whitespace s)
        (All-trim_start is_whitespace s h)

  All-onto_first : (c : ℕ) (ls : List Text) → P c → All (All P) ls → All (All P) (onto_first c ls)
  All-onto_first c [] p h = ((p, tt), tt)
  All-onto_first c (l ∷ ls) p h = ((p, h.0), h.1)

  All-split_inclusive : (s : Text) → All P s → All (All P) (split_inclusive s)
  unfolding split_inclusive
  All-split_inclusive [] h = tt
  All-split_inclusive (c ∷ s) h =
      ground (arith, All-split_inclusive s h.1, All-onto_first c (split_inclusive s) h.0)

  All-strip_line_end : (l : Text) → All P l → All P (strip_line_end l)
  unfolding strip_line_end
  All-strip_line_end [] h = tt
  All-strip_line_end (c ∷ []) h = ground arith
  All-strip_line_end (c ∷ d ∷ s) h = ground (arith, All-strip_line_end (d ∷ s) h.1)

  All-lines : (ls : List Text) → All (All P) ls → All (All P) (map strip_line_end ls)
  All-lines [] h = tt
  All-lines (l ∷ ls) h = (All-strip_line_end l h.0, All-lines ls h.1)

  All-join : (ls : List Text) (sep : Text) → All P sep → All (All P) ls → All P (join ls sep)
  unfolding join
  All-join [] sep p h = tt
  All-join (l ∷ []) sep p h = h.0
  All-join (l ∷ k ∷ ls) sep p h =
      All-append P l (sep ++ join (k ∷ ls) sep) h.0
        (All-append P sep (join (k ∷ ls) sep) p (All-join (k ∷ ls) sep p h.1))

  All-erase_from : (needle : Text) (k : ℕ) (s : Text) → All P s → All P (erase_from needle k s)
  unfolding erase_from
  All-erase_from needle k [] h = tt
  All-erase_from needle (suc k) (c ∷ s) h = All-erase_from needle k s h.1
  All-erase_from needle zero (c ∷ s) h =
      ground
        (arith, All-erase_from needle (length needle - 1) s h.1, All-erase_from needle zero s h.1)

  All-collapse_from : P b' ' → (prev : Bool) (s : Text) → All P s → All P (collapse_from prev s)
  unfolding collapse_from
  All-collapse_from p prev [] h = tt
  All-collapse_from p prev (c ∷ s) h =
      ground (arith, p, All-collapse_from p true s h.1, All-collapse_from p false s h.1)

module _ {A : Type 0} (P : A → Type 0) where
  All-keep : (p : A → Bool) (xs : List A) → All P xs → All P (keep p xs)
  All-keep p [] h = tt
  All-keep p (x ∷ xs) h = ground (arith, All-keep p xs h.1)

-- No angle bracket.
abbrev pub IsOutsideTags : ℕ → Type 0
IsOutsideTags c = (c ≢ b'<') × (c ≢ b'>')

strip_tags-Outside : (b : Bool) (s : Text) → All IsOutsideTags (strip_tags_in b s)
unfolding strip_tags_in
strip_tags-Outside b [] = tt
strip_tags-Outside b (c ∷ s) =
    ground (arith, strip_tags-Outside true s, strip_tags-Outside false s, strip_tags-Outside b s)

tidy-Outside :
    (s : Text)
    → All IsOutsideTags s
    → All IsOutsideTags
        (collapse_whitespace (erase (codes "''") (erase (codes "'''") (strip_category_lines s))))
unfolding collapse_whitespace erase strip_category_lines lines
tidy-Outside s h =
    let kept = keep keeps_line (map strip_line_end (split_inclusive s)) in
    let text = join kept (codes "\n") in
    let quoted = erase_from (codes "'''") 0 text in
    let erased = erase_from (codes "''") 0 quoted in
    All-trim IsOutsideTags (collapse_from false erased) (
      All-collapse_from IsOutsideTags (omega arith, omega arith) false erased
        (All-erase_from IsOutsideTags (codes "''") 0 quoted (
          All-erase_from IsOutsideTags (codes "'''") 0 text (
            All-join IsOutsideTags kept (codes "\n") ((omega arith, omega arith), tt)
              (All-keep (All IsOutsideTags) keeps_line (map strip_line_end (split_inclusive s)) (
                All-lines IsOutsideTags (split_inclusive s)
                  (All-split_inclusive IsOutsideTags s h)))))))

stripped-Outside :
    (s : Text)
    → All IsOutsideTags (
        collapse_whitespace (
          erase
            (codes "''")
            (erase (codes "'''") (strip_category_lines (strip_remaining_html_tags s)))))
unfolding strip_remaining_html_tags
stripped-Outside s = tidy-Outside (strip_tags_in false s) (strip_tags-Outside false s)

-- The plain text of a wikitext holds no angle bracket, whatever the wikitext is: no markup of tags
-- is left in it.
pub wikitext_to_plain-Outside :
    (u : Unicode) (input : Text) → All IsOutsideTags (wikitext_to_plain u input)
unfolding wikitext_to_plain
wikitext_to_plain-Outside u input = stripped-Outside (
    simplify_wiki_links u (
      remove_templates (
        strip_self_closing_tags u (strip_block_tags u (strip_html_comments input) (codes "ref"))
          (codes "ref"))))
