-- ===== src/Identity/Occurrence.antt =====
-- The key of an occurrence of crates/talaria-quality/src/occurrence.rs: what the hashed text
-- tells apart.
use talaria_v.Base.{
  ℕ, ◌≡◌, refl, ◌≢◌, ◌↔◌, [], ◌∷◌, ◌++◌, arith, List, Option, unwrap_or, All, All-append, sym, all,
  not, true, ◌==◌,
}
use talaria_v.Text.{Text, codes}
use talaria_v.Text.Separator.{Lacks, append_sep-injective}
use talaria_v.Text.Decimal.{show_nat, show_int}
use talaria_v.Text.Unicode.{Unicode}
use talaria_v.Time.{TypedTime, exact, range, approx, unknown, canonical_key}
use talaria_v.Time.Key.{SameMoment, canonical_key_iff, show_int-Lacks_bar, show_nat-Lacks_bar}
use talaria_v.Identity.{occurrence_input, occurrence_parts, normalize_surface}

cons_not_nil : (p : Text) (c : ℕ) (rest : Text) → p ++ c ∷ rest ≢ []
cons_not_nil [] c rest e = cc
cons_not_nil (a ∷ p) c rest e = cc

bar_input-injective :
    (ps qs : List Text)
    → All (Lacks b'|') ps
    → All (Lacks b'|') qs
    → occurrence_input ps ≡ occurrence_input qs
    → ps ≡ qs
unfolding occurrence_input
bar_input-injective [] [] h k e = refl
bar_input-injective [] (q ∷ qs) h k e = absurd (cons_not_nil q b'|' (occurrence_input qs) (sym e))
bar_input-injective (p ∷ ps) [] h k e = absurd (cons_not_nil p b'|' (occurrence_input ps) e)
bar_input-injective (p ∷ ps) (q ∷ qs) h k e =
    let fields = append_sep-injective b'|' p q h.0 k.0 e in
    let rest = bar_input-injective ps qs h.1 k.1 fields.1 in cc (fields.0, rest)

colon_joined : (s t : Text) → Lacks b'|' s → Lacks b'|' t → Lacks b'|' (s ++ b':' ∷ t)
colon_joined s t h k = All-append _ s (b':' ∷ t) h (omega arith, k)

-- A literal is tested.
pub tested-Lacks_bar : (s : Text) → all (λ c. not (c == b'|')) s ≡ true → Lacks b'|' s
tested-Lacks_bar [] e = tt
tested-Lacks_bar (c ∷ s) e = (ground arith, tested-Lacks_bar s (ground arith))

canonical_key-Lacks_bar : (t : TypedTime) → Lacks b'|' (canonical_key t)
unfolding canonical_key codes
canonical_key-Lacks_bar (exact y m d s) =
    All-append _ (codes "exact:") _ (tested-Lacks_bar (codes "exact:") refl) (
      colon_joined (show_int y) _ (show_int-Lacks_bar y)
        (colon_joined (show_nat (unwrap_or m 0)) _ (show_nat-Lacks_bar _) (show_nat-Lacks_bar _)))
canonical_key-Lacks_bar (range a b s) =
    All-append _ (codes "range:") _ (tested-Lacks_bar (codes "range:") refl)
      (colon_joined (show_int a) _ (show_int-Lacks_bar a) (show_int-Lacks_bar b))
canonical_key-Lacks_bar (approx y s) =
    All-append _ (codes "approx:") _ (tested-Lacks_bar (codes "approx:") refl)
      (show_int-Lacks_bar y)
canonical_key-Lacks_bar (unknown s) = tested-Lacks_bar (codes "unknown") refl

-- What an occurrence is made of: the arguments of `occurrence_key`.
pub record Occurrence : Type 0 where
  pub subject : Text
  pub event_type : Text
  pub action_role : Text
  pub time : TypedTime
  pub place : Option Text
  pub primary_object : Option Text
  pub primary_document : Option Text
  pub marker : Option Text

module _ (u : Unicode) where
  abbrev norm : Option Text → Text
  norm o = normalize_surface u (unwrap_or o [])

  -- The text that `occurrence_key` hashes.
  abbrev pub key_input : Occurrence → Text
  key_input o = occurrence_input (
      occurrence_parts u o.subject o.event_type o.action_role o.time o.place o.primary_object
        o.primary_document o.marker)

  -- No field, normalized where the code normalizes it, holds the separator.
  abbrev pub BarFree : Occurrence → Type 0
  BarFree o =
      Lacks b'|' (normalize_surface u o.subject)
      × Lacks b'|' o.event_type
      × Lacks b'|' o.action_role
      × Lacks b'|' (norm o.place)
      × Lacks b'|' (norm o.primary_object)
      × Lacks b'|' (norm o.primary_document)
      × Lacks b'|' (unwrap_or o.marker [])

  -- One historical fact: the surfaces agree up to white space and case, and the moment is the same.
  abbrev pub SameOccurrence : Occurrence → Occurrence → Type 0
  SameOccurrence o o' =
      (normalize_surface u o.subject ≡ normalize_surface u o'.subject)
      × (o.event_type ≡ o'.event_type)
      × (o.action_role ≡ o'.action_role)
      × SameMoment o.time o'.time
      × (norm o.place ≡ norm o'.place)
      × (norm o.primary_object ≡ norm o'.primary_object)
      × (norm o.primary_document ≡ norm o'.primary_document)
      × (unwrap_or o.marker [] ≡ unwrap_or o'.marker [])

  parts-Lacks :
      (o : Occurrence)
      → BarFree o
      → All (Lacks b'|') (
          occurrence_parts u o.subject o.event_type o.action_role o.time o.place o.primary_object
            o.primary_document o.marker)
  unfolding occurrence_parts
  parts-Lacks o (s, t, r, p, b, d, m) =
      (s, (t, (r, (canonical_key-Lacks_bar o.time, (p, (b, (d, (m, tt))))))))

  input→same :
      (o o' : Occurrence)
      → BarFree o
      → BarFree o'
      → key_input o ≡ key_input o'
      → SameOccurrence o o'
  unfolding occurrence_parts
  input→same o o' h k e =
      let same = bar_input-injective _ _ (parts-Lacks o h) (parts-Lacks o' k) e in
      (
        cc same,
        cc same,
        cc same,
        (canonical_key_iff o.time o'.time).0 (cc same),
        cc same,
        cc same,
        cc same,
        cc same,
      )

  same→input : (o o' : Occurrence) → SameOccurrence o o' → key_input o ≡ key_input o'
  unfolding occurrence_parts
  same→input o o' (s, t, r, m, p, b, d, k) =
      rw (s, t, r, (canonical_key_iff o.time o'.time).1 m, p, b, d, k)

  -- Where no field holds `|`, two occurrences have the same hashed text exactly when subject, place,
  -- object and document agree up to white space and case, type, role and marker are equal, and the
  -- moment is the same.
  pub occurrence_input_iff :
      (o o' : Occurrence)
      → BarFree o
      → BarFree o'
      → (key_input o ≡ key_input o') ↔ SameOccurrence o o'
  occurrence_input_iff o o' h k = (input→same o o' h k, same→input o o')
