-- ===== src/Wiki/Infobox/RoundTrip.antt =====
-- The fields of a template that was printed one field behind the other.
use talaria_v.Base.{
  ℕ, ◌≡◌, ◌≢◌, refl, sym, ◌∙◌, ap, true, false, ◌&&◌, List, [], ◌∷◌, ◌++◌, some, ltb, is_empty, any,
  All, arith,
}
use mathlib.Core.List.{append_assoc, append-nil}
use talaria_v.Text.{
  Text, codes, trim, trim_end_matches, is_whitespace, byte_len, contains, starts_with,
}
use talaria_v.Text.Unicode.{Unicode}
use talaria_v.Wiki.Infobox.{
  InfoboxField, FieldLoop, field_of, add_field, push_field, at_char, at_chars,
  parse_template_fields,
}
use talaria_v.Wiki.Infobox.Nested.{
  is_nested, IsTight, trim-tight, StartsTight-append, split_once-found, contains-found,
  trim_end-append, zero_of, zero_link, step, nested_step,
}

-- A field that can be printed: a short key that is no infobox, and a value.
pub record IsField (u : Unicode) (f : InfoboxField) : Type 0 where
  pub key_nested : is_nested 0 0 f.key ≡ true
  pub value_nested : is_nested 0 0 f.value ≡ true
  pub key_tight : IsTight f.key
  pub value_tight : IsTight f.value
  pub key_present : is_empty f.key ≡ false
  pub key_no_equals : All (λ c. c ≢ b'=') f.key
  pub key_short : any is_whitespace f.key && ltb 40 (byte_len f.key) ≡ false
  pub key_no_infobox : starts_with (u.to_lowercase f.key) (codes "infobox") ≡ false

abbrev pub print_field : InfoboxField → Text
print_field f = f.key ++ b'=' ∷ f.value

abbrev pub print_fields : List InfoboxField → Text
print_fields [] = []
print_fields (f ∷ fs) = b'|' ∷ (print_field f ++ print_fields fs)

module _ (u : Unicode) where
  at_chars-nested :
      (s cur : Text) (fs : List InfoboxField) (b l : ℕ) (rest : Text)
      → is_nested b l s ≡ true
      → at_chars u
          (record { fields = fs; current = cur; depth_brace = b; depth_link = l })
          (s ++ rest)
        ≡ at_chars u
            (record { fields = fs; current = cur ++ s; depth_brace = 0; depth_link = 0 })
            rest
  unfolding at_chars is_nested
  at_chars-nested [] cur fs b l rest h = cc (append-nil cur, zero_of b l h, zero_link b l h)
  at_chars-nested (c ∷ s) cur fs b l rest h = elim (nested_step u fs cur s c b l h) [
    | step b2 l2 e k ↦
        ap (λ x. at_chars u x (s ++ rest)) e
        ∙ at_chars-nested s (cur ++ c ∷ []) fs b2 l2 rest k
        ∙ ap
            (λ t.
              at_chars u (record { fields = fs; current = t; depth_brace = 0; depth_link = 0 })
                rest)
            (append_assoc cur (c ∷ []) s)
  ]

  abbrev outside : List InfoboxField → Text → FieldLoop
  outside fs cur = record { fields = fs; current = cur; depth_brace = 0; depth_link = 0 }

  at_chars-field :
      (f : InfoboxField) (fs : List InfoboxField) (rest : Text)
      → IsField u f
      → at_chars u (outside fs []) (print_field f ++ rest)
        ≡ at_chars u (outside fs (print_field f)) rest
  unfolding is_nested
  at_chars-field f fs rest h = rw (append_assoc f.key (b'=' ∷ f.value) rest) (
      at_chars-nested f.key [] fs 0 0 (b'=' ∷ f.value ++ rest) h.key_nested
      ∙ at_chars-nested (b'=' ∷ f.value) f.key fs 0 0 rest h.value_nested)

  print-IsTight : (f : InfoboxField) → IsField u f → IsTight (print_field f)
  unfolding trim_end_matches is_whitespace
  print-IsTight f h =
      let value_end : trim_end_matches is_whitespace (b'=' ∷ f.value) ≡ b'=' ∷ f.value =
        ap (◌∷◌ b'=') h.value_tight.1 in
      (
        StartsTight-append f.key (b'=' ∷ f.value) h.key_present h.key_tight.0,
        trim_end-append f.key (b'=' ∷ f.value) refl ∙ ap (◌++◌ f.key) value_end,
      )

  print_present : (k v : Text) → is_empty (k ++ b'=' ∷ v) ≡ false
  print_present [] v = refl
  print_present (c ∷ k) v = refl

  field_of-print : (f : InfoboxField) → IsField u f → field_of u (print_field f) ≡ some f
  unfolding field_of
  field_of-print f h =
      rw
        (
          trim-tight (print_field f) (print-IsTight f h),
          print_present f.key f.value,
          contains-found f.key f.value,
          split_once-found f.key f.value h.key_no_equals,
          trim-tight f.key h.key_tight,
          trim-tight f.value h.value_tight,
          h.key_present,
          h.key_short,
          h.key_no_infobox,
        )
        refl

  at_bar :
      (fs : List InfoboxField) (cur rest : Text)
      → at_chars u (outside fs cur) (b'|' ∷ rest)
        ≡ at_chars u (outside (push_field u fs cur) []) rest
  unfolding at_chars at_char
  at_bar fs cur rest = refl

  abbrev finished : FieldLoop → List InfoboxField
  finished x = push_field u x.fields x.current

  push-known :
      (fs : List InfoboxField) (f : InfoboxField)
      → IsField u f
      → push_field u fs (print_field f) ≡ fs ++ f ∷ []
  push-known fs f h = ap (add_field fs) (field_of-print f h)

  fields_behind :
      (gs fs : List InfoboxField) (cur : Text)
      → All (IsField u) gs
      → finished (at_chars u (outside fs cur) (print_fields gs)) ≡ push_field u fs cur ++ gs
  unfolding at_chars
  fields_behind [] fs cur h = sym (append-nil (push_field u fs cur))
  fields_behind (g ∷ gs) fs cur h =
      let pushed : List InfoboxField = push_field u fs cur in
      ap finished (at_bar fs cur (print_field g ++ print_fields gs))
      ∙ ap finished (at_chars-field g pushed (print_fields gs) h.0)
      ∙ fields_behind gs pushed (print_field g) h.1
      ∙ ap (λ xs. xs ++ gs) (push-known pushed g h.0)
      ∙ append_assoc pushed (g ∷ []) gs

name_pushes_none :
    (u : Unicode) (name : Text)
    → contains (trim name) (codes "=") ≡ false
    → push_field u [] name ≡ []
unfolding field_of
name_pushes_none u name k = ground (arith, k)

-- A template that is printed as its name and its fields, `|key=value` each, is read back: exactly
-- these fields, in their order, where the name and every key and value close their brackets and have
-- no bar outside them, the name has no `=`, no key or value has white space at an end, and each key is
-- not empty, has no `=`, has at most 40 bytes if it holds white space, and does not begin with
-- "infobox" in lower case. Bars inside the brackets of a value, as in a link or a date template, do
-- not end it.
pub parse_template_fields-print :
    (u : Unicode) (name : Text) (fields : List InfoboxField)
    → is_nested 0 0 name ≡ true
    → contains (trim name) (codes "=") ≡ false
    → All (IsField u) fields
    → parse_template_fields u (name ++ print_fields fields) ≡ fields
unfolding parse_template_fields
parse_template_fields-print u name fields h k all =
    ap (finished u) (at_chars-nested u name [] [] 0 0 (print_fields fields) h)
    ∙ fields_behind u fields [] name all
    ∙ ap (λ xs. xs ++ fields) (name_pushes_none u name k)
