-- ===== src/Wiki/Sections/Loop.antt =====
-- The loop over the lines of a wikitext keeps track of where it is.
use talaria_v.Base.{
  ℕ, ◌+◌, ◌≡◌, refl, sym, subst, ◌∙◌, ap, inl, inr, List, [], ◌∷◌, ◌++◌, map, arith, Bool-cases,
  Option-cases, ℤ, pos, length, length-append, All, add_i32, wrap32,
}
use mathlib.Core.List.{append_assoc}
use talaria_v.Text.{Text, byte_len}
use talaria_v.Wiki.{strip_line_end}
use talaria_v.Wiki.Sections.{
  WikiSectionSpan, Splitter, newline_len, as_i32, parse_heading, push_section, span_of, pushes,
  at_heading, at_line, at_lines,
}
use talaria_v.Wiki.Sections.Offsets.{byte_len-append}
use talaria_v.Wiki.Sections.Ends.{
  line_ending, strip_line_end-ending, Ended, flatten, newline_len-ending, line_ending-IsEnding,
}
use talaria_v.Wiki.Sections.Slices.{IsSlice, push_section-IsSlice}

-- Sections are numbered from `n` on.
abbrev pub Numbered : ℕ → List WikiSectionSpan → Type 0
Numbered n [] = Unit
Numbered n (s ∷ ss) = (s.ordinal ≡ as_i32 n) × Numbered (n + 1) ss

Numbered-snoc :
    (n : ℕ) (ss : List WikiSectionSpan) (s : WikiSectionSpan)
    → Numbered n ss
    → s.ordinal ≡ as_i32 (n + length ss)
    → Numbered n (ss ++ s ∷ [])
Numbered-snoc n [] s h e = (e ∙ ap as_i32 (omega arith), tt)
Numbered-snoc n (t ∷ ss) s h e = (h.0, Numbered-snoc (n + 1) ss s h.1 (e ∙ ap as_i32 (omega arith)))

as_i32-suc : (n : ℕ) → add_i32 (as_i32 n) (pos 1) ≡ as_i32 (n + 1)
unfolding add_i32 wrap32
as_i32-suc n = ground arith

-- `p` is before the body of the current section, `b` is the part of the body that has been read.
pub record At (w : Text) (x : Splitter) (rest : Text) : Type 0 where
  pub p : Text
  pub b : Text
  pub splits : w ≡ p ++ (b ++ rest)
  pub start_is : x.body_start ≡ byte_len p
  pub pos_is : x.byte_pos ≡ byte_len p + byte_len b
  pub slices : All (IsSlice w) x.sections
  pub ordinal_is : x.ordinal ≡ as_i32 (length x.sections)
  pub numbered : Numbered 0 x.sections

pub push_section-Numbered :
    (ss : List WikiSectionSpan) (w title : Text) (ordinal : ℤ) (i j : ℕ)
    → Numbered 0 ss
    → ordinal ≡ as_i32 (length ss)
    → Numbered 0 (push_section ss w ordinal title i j)
unfolding push_section span_of
push_section-Numbered ss w title ordinal i j h e =
    Numbered-snoc 0 ss _ h (e ∙ ap as_i32 (omega arith))

pub length-push_section :
    (ss : List WikiSectionSpan) (w title : Text) (ordinal : ℤ) (i j : ℕ)
    → length (push_section ss w ordinal title i j) ≡ length ss + 1
unfolding push_section
length-push_section ss w title ordinal i j = length-append ss _ ∙ omega arith

-- Where the line ends, its end included.
module _ (w : Text) (x : Splitter) (l rest : Text) (h : At w x (l ++ rest))
    (k : line_ending l ≡ [] → rest ≡ []) where
  splits_behind : w ≡ h.p ++ ((h.b ++ l) ++ rest)
  splits_behind = h.splits ∙ ap (◌++◌ h.p) (sym (append_assoc h.b l rest))

  line_end_is :
      x.byte_pos + byte_len (strip_line_end l) ≡ byte_len ((h.p ++ h.b) ++ strip_line_end l)
  line_end_is =
      rw (h.pos_is, byte_len-append (h.p ++ h.b) (strip_line_end l), byte_len-append h.p h.b) refl

  at_line_end : w ≡ ((h.p ++ h.b) ++ strip_line_end l) ++ (line_ending l ++ rest)
  at_line_end =
      splits_behind
      ∙ ap (λ s. h.p ++ ((h.b ++ s) ++ rest)) (sym (strip_line_end-ending l))
      ∙ rw
          (
            append_assoc (h.p ++ h.b) (strip_line_end l) (line_ending l ++ rest),
            append_assoc h.p h.b (strip_line_end l ++ (line_ending l ++ rest)),
            append_assoc h.b (strip_line_end l ++ line_ending l) rest,
            append_assoc (strip_line_end l) (line_ending l) rest,
          )
          refl

  newline_is :
      newline_len w (byte_len ((h.p ++ h.b) ++ strip_line_end l)) ≡ byte_len (line_ending l)
  newline_is =
      subst
        (λ t.
          newline_len t (byte_len ((h.p ++ h.b) ++ strip_line_end l)) ≡ byte_len (line_ending l))
        (sym at_line_end)
        (newline_len-ending ((h.p ++ h.b) ++ strip_line_end l) (line_ending l) rest
          (line_ending-IsEnding l) k)

  next_is :
      x.byte_pos
        + byte_len (strip_line_end l)
        + newline_len w (x.byte_pos + byte_len (strip_line_end l))
      ≡ byte_len h.p + byte_len (h.b ++ l)
  next_is =
      rw (line_end_is, newline_is)
        (sym (byte_len-append ((h.p ++ h.b) ++ strip_line_end l) (line_ending l))
          ∙ ap byte_len (
              append_assoc (h.p ++ h.b) (strip_line_end l) (line_ending l)
              ∙ ap (◌++◌ (h.p ++ h.b)) (strip_line_end-ending l)
              ∙ append_assoc h.p h.b l)
          ∙ byte_len-append h.p (h.b ++ l))

  behind_text :
      (next : ℕ)
      → next ≡ byte_len h.p + byte_len (h.b ++ l)
      → At w (record x { byte_pos = next }) rest
  behind_text next e = record {
    p = h.p;
    b = h.b ++ l;
    splits = splits_behind;
    start_is = h.start_is;
    pos_is = e;
    slices = h.slices;
    ordinal_is = h.ordinal_is;
    numbered = h.numbered;
  }

  pushed_slices :
      All (IsSlice w) (push_section x.sections w x.ordinal x.current_title x.body_start x.byte_pos)
  pushed_slices =
      rw (h.start_is, h.pos_is)
        (push_section-IsSlice w h.p h.b (l ++ rest) h.splits x.sections x.ordinal x.current_title
          h.slices)

  at_heading-At :
      (title : Text) (next : ℕ)
      → next ≡ byte_len h.p + byte_len (h.b ++ l)
      → At w (at_heading w title next x) rest
  unfolding at_heading byte_len
  at_heading-At title next e =
      let splits_here = splits_behind ∙ sym (append_assoc h.p (h.b ++ l) rest) in
      let start_here = e ∙ sym (byte_len-append h.p (h.b ++ l)) in
      elim (Bool-cases (pushes w x)) [
        | inl pushed ↦ rw pushed (record {
          p = h.p ++ (h.b ++ l);
          b = [];
          splits = splits_here;
          start_is = start_here;
          pos_is = start_here ∙ omega arith;
          slices = pushed_slices;
          ordinal_is =
              ap (λ o. add_i32 o (pos 1)) h.ordinal_is
              ∙ as_i32-suc (length x.sections)
              ∙ ap as_i32 (
                  sym (
                    length-push_section x.sections w x.current_title x.ordinal x.body_start
                      x.byte_pos));
          numbered =
              push_section-Numbered x.sections w x.current_title x.ordinal x.body_start x.byte_pos
                h.numbered h.ordinal_is;
        })
        | inr kept ↦ rw kept (record {
          p = h.p ++ (h.b ++ l);
          b = [];
          splits = splits_here;
          start_is = start_here;
          pos_is = start_here ∙ omega arith;
          slices = h.slices;
          ordinal_is = h.ordinal_is;
          numbered = h.numbered;
        })
      ]

  at_line-At : At w (at_line w x (strip_line_end l)) rest
  unfolding at_line
  at_line-At = elim (Option-cases (parse_heading (strip_line_end l))) [
    | inl e ↦ rw (at_line, e) (behind_text _ next_is)
    | inr (title, e) ↦ rw (at_line, e) (at_heading-At title _ next_is)
  ]

pub at_lines-At :
    (w : Text) (x : Splitter) (ls : List Text)
    → At w x (flatten ls)
    → Ended ls
    → At w (at_lines w x (map strip_line_end ls)) []
unfolding at_lines
at_lines-At w x [] h k = h
at_lines-At w x (l ∷ ls) h k =
    at_lines-At w (at_line w x (strip_line_end l)) ls
      (at_line-At w x l (flatten ls) h (λ e. ap flatten (k.0 e))) k.1
