-- ===== src/Wiki/Sections/Sound.antt =====
-- What the sections of a wikitext are.
use talaria_v.Base.{
  ℕ, zero, suc, ◌+◌, ◌-◌, ◌^◌, ◌≡◌, refl, sym, subst, ◌∙◌, ap, inl, inr, [], ◌∷◌, ◌++◌, arith,
  Bool-cases, pos, length, length-append, All, All-mono, wrap32, ◌<◌, ◌≤◌, take, drop,
  drop-append_eq,
}
use mathlib.Core.List.{append-nil}
use talaria_v.Text.{Text, byte_len, codes}
use talaria_v.Wiki.{lines, split_inclusive}
use talaria_v.Wiki.Sections.{
  WikiSectionSpan, Splitter, as_i32, at_lines, pushes_last, last_section, initial,
  split_wiki_sections,
}
use talaria_v.Wiki.Sections.Offsets.{byte_len-append}
use talaria_v.Wiki.Sections.Ends.{split_inclusive-Ended, split_inclusive-flatten}
use talaria_v.Wiki.Sections.Slices.{IsSlice, push_section-IsSlice}
use talaria_v.Wiki.Sections.Loop.{
  Numbered, At, push_section-Numbered, length-push_section, at_lines-At,
}

initial-At : (w : Text) → At w initial w
unfolding byte_len codes wrap32
initial-At w = record {
  p = [];
  b = [];
  splits = refl;
  start_is = refl;
  pos_is = refl;
  slices = tt;
  ordinal_is = refl;
  numbered = tt;
}

end-At : (w : Text) → At w (at_lines w initial (lines w)) []
unfolding lines
end-At w =
    at_lines-At w initial (split_inclusive w)
      (subst (At w initial) (sym (split_inclusive-flatten w)) (initial-At w))
      (split_inclusive-Ended w)

module _ (w : Text) (x : Splitter) (h : At w x []) where
  end_is : byte_len w ≡ byte_len h.p + byte_len h.b
  end_is = ap byte_len (h.splits ∙ ap (◌++◌ h.p) (append-nil h.b)) ∙ byte_len-append h.p h.b

  last_section-IsSlice : All (IsSlice w) (last_section w x)
  unfolding last_section
  last_section-IsSlice = elim (Bool-cases (pushes_last w x)) [
    | inl pushed ↦
        rw (last_section, pushed, h.start_is, end_is)
          (push_section-IsSlice w h.p h.b [] h.splits x.sections x.ordinal x.current_title h.slices)
    | inr kept ↦ rw (last_section, kept) h.slices
  ]

  last_section-Numbered : Numbered 0 (last_section w x)
  unfolding last_section
  last_section-Numbered = elim (Bool-cases (pushes_last w x)) [
    | inl pushed ↦
        rw (last_section, pushed)
          (push_section-Numbered x.sections w x.current_title x.ordinal x.body_start (byte_len w)
            h.numbered h.ordinal_is)
    | inr kept ↦ rw (last_section, kept) h.numbered
  ]

last_section-NonEmpty : (w : Text) (x : Splitter) → 0 < length (last_section w x)
unfolding last_section pushes_last
last_section-NonEmpty w x =
    ground
      (arith, length-push_section x.sections w x.current_title x.ordinal x.body_start (byte_len w))

-- The characters of `w` from the start of the section to its end are the section's text.
abbrev pub IsCut : Text → WikiSectionSpan → Type 0
IsCut w s =
    (start end : ℕ) × ((s.start_offset ≡ pos start)
      × ((s.end_offset ≡ pos end)
          × ((start ≤ end)
              × ((end ≤ length w) × (s.wikitext ≡ take (end - start) (drop start w))))))

as_i32-small : (n : ℕ) → n < 2 ^ 31 → as_i32 n ≡ pos n
unfolding wrap32
as_i32-small n h = ground (arith, h)

take_here : (m z : Text) (n : ℕ) → n ≡ length m → m ≡ take n (m ++ z)
take_here [] z zero e = refl
take_here [] z (suc n) e = absurd (omega arith)
take_here (c ∷ m) z zero e = absurd (omega arith)
take_here (c ∷ m) z (suc n) e = ap (◌∷◌ c) (take_here m z n (omega arith))

IsSlice-IsCut : (w : Text) → length w < 2 ^ 31 → (s : WikiSectionSpan) → IsSlice w s → IsCut w s
IsSlice-IsCut w h s k =
    let whole : length w ≡ length k.before + (length s.wikitext + length k.behind) =
      ap length k.splits
      ∙ length-append k.before (s.wikitext ++ k.behind)
      ∙ ap (◌+◌ (length k.before)) (length-append s.wikitext k.behind) in
    let front : length (k.before ++ s.wikitext) ≡ length k.before + length s.wikitext =
      length-append k.before s.wikitext in
    (
      length k.before,
      length (k.before ++ s.wikitext),
      (
        k.starts ∙ as_i32-small (length k.before) (omega arith),
        (
          k.ends ∙ as_i32-small (length (k.before ++ s.wikitext)) (omega arith),
          (
            omega arith,
            (
              omega arith,
              rw (k.splits, drop-append_eq (length k.before) k.before (s.wikitext ++ k.behind) refl)
                  (take_here s.wikitext k.behind _ (omega arith)),
            ),
          ),
        ),
      ),
    )

-- Of a wikitext with fewer than 2^31 characters, the offsets of each section lie in the text, in
-- order, and the characters between them are exactly the section's text.
pub split_wiki_sections-IsCut :
    (w : Text) → length w < 2 ^ 31 → All (IsCut w) (split_wiki_sections w)
unfolding split_wiki_sections
split_wiki_sections-IsCut w h =
    All-mono (last_section w (at_lines w initial (lines w))) (IsSlice-IsCut w h)
      (last_section-IsSlice w (at_lines w initial (lines w)) (end-At w))

-- Every wikitext has at least one section, and the ordinals of its sections count up from 0 with no
-- gap, also where sections without text are left out.
pub split_wiki_sections-Numbered :
    (w : Text) → Numbered 0 (split_wiki_sections w) × (0 < length (split_wiki_sections w))
unfolding split_wiki_sections
split_wiki_sections-Numbered w = (
  last_section-Numbered w (at_lines w initial (lines w)) (end-At w),
  last_section-NonEmpty w (at_lines w initial (lines w)),
)
