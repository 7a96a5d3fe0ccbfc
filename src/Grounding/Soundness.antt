-- ===== src/Grounding/Soundness.antt =====
-- What the grounding of extracted items guarantees on its two paths, prose and structured.
use talaria_v.Base.{
  ◌≡◌, refl, ◌↔◌, ◌⊎◌, inl, inr, true, false, List, [], ◌∷◌, Option, map, arith, is_empty,
  Bool-cases, Any, subst, ap, ◌∙◌,
}
use talaria_v.Text.{Text, trim}
use talaria_v.Text.Unicode.{Unicode}
use talaria_v.Grounding.Names.{agent_is_other_person}
use talaria_v.Grounding.{
  fact, RawExtractItem, GroundedItem, Validated, valid, refused, is_fact, parse_lane,
  quote_is_grounded, grounded_of, validate_item, structured_item, valid_only, accept_items,
  ground_structured, ground_prose, has_statement, RejectReason,
}

Validated-cases :
    (v : Validated) → ((g : GroundedItem) × (v ≡ valid g)) ⊎ ((r : RejectReason) × (v ≡ refused r))
Validated-cases (valid g) = inl (g, refl)
Validated-cases (refused r) = inr (r, refl)

-- The valid results are what the list of them holds.
valid_only-holds :
    (f : RawExtractItem → Validated) (raw : List RawExtractItem) (g : GroundedItem)
    → Any (λ h. h ≡ g) (valid_only (map f raw))
    → Any (λ item. f item ≡ valid g) raw
unfolding valid_only
valid_only-holds f [] g h = h
valid_only-holds f (x ∷ xs) g h = elim (Validated-cases (f x)) [
  | inl (g', e) ↦ elim (subst (λ v. Any (λ h. h ≡ g) (valid_only (v ∷ map f xs))) e h) [
    | inl e' ↦ inl (e ∙ ap valid e')
    | inr h' ↦ inr (valid_only-holds f xs g h')
  ]
  | inr (r, e) ↦
      inr (valid_only-holds f xs g (subst (λ v. Any (λ h. h ≡ g) (valid_only (v ∷ map f xs))) e h))
]

holds-valid_only :
    (f : RawExtractItem → Validated) (raw : List RawExtractItem) (g : GroundedItem)
    → Any (λ item. f item ≡ valid g) raw
    → Any (λ h. h ≡ g) (valid_only (map f raw))
unfolding valid_only
holds-valid_only f [] g h = h
holds-valid_only f (x ∷ xs) g (inl e) = rw e (inl refl)
holds-valid_only f (x ∷ xs) g (inr h) = elim (Validated-cases (f x)) [
  | inl (g', e) ↦ rw e (inr (holds-valid_only f xs g h))
  | inr (r, e) ↦ rw e (holds-valid_only f xs g h)
]

Any-mono :
    {A : Type 0} {P Q : A → Type 0} (xs : List A) → ((a : A) → P a → Q a) → Any P xs → Any Q xs
Any-mono [] f h = h
Any-mono (x ∷ xs) f (inl p) = inl (f x p)
Any-mono (x ∷ xs) f (inr h) = inr (Any-mono xs f h)

module _ (u : Unicode) where
  -- What the prose path demands of an item.
  abbrev pub Fits : Text → Text → RawExtractItem → Type 0
  Fits subject document item =
      (is_empty (trim item.quoted_text) ≡ false)
      × (quote_is_grounded u document item.quoted_text ≡ true)
      × (parse_lane item.lane ≡ fact → agent_is_other_person u item.quoted_text subject ≡ false)

  validate_item-valid_iff :
      (item : RawExtractItem) (document subject : Text) (g : GroundedItem)
      → (validate_item u item document subject ≡ valid g)
        ↔ (Fits subject document item × (grounded_of item ≡ g))
  unfolding validate_item is_fact
  validate_item-valid_iff item document subject g = ground arith

  -- An item is accepted from prose exactly when it is made of an extracted one whose quote is not
  -- blank and stands in the document, up to white space and case, and which, if it is a fact, is not
  -- another person's.
  pub accept_items-holds_iff :
      (subject document : Text) (raw : List RawExtractItem) (g : GroundedItem)
      → Any (λ h. h ≡ g) (accept_items u subject document raw)
        ↔ Any (λ item. Fits subject document item × (grounded_of item ≡ g)) raw
  unfolding accept_items
  accept_items-holds_iff subject document raw g = (
    λ h.
        Any-mono raw (λ item. (validate_item-valid_iff item document subject g).0)
          (valid_only-holds _ raw g h),
    λ h.
        holds-valid_only _ raw g
          (Any-mono raw (λ item. (validate_item-valid_iff item document subject g).1) h),
  )

  valid-structured :
      (item : RawExtractItem) (document subject : Text) (g : GroundedItem)
      → validate_item u item document subject ≡ valid g
      → structured_item u item subject ≡ valid g
  unfolding validate_item structured_item
  valid-structured item document subject g h = ground arith

  -- What the prose path accepts, the structured path accepts too, whatever the statement id.
  pub ground_prose-ground_structured :
      (subject document : Text) (raw : List RawExtractItem) (id : Option Text) (g : GroundedItem)
      → Any (λ h. h ≡ g) (ground_prose u subject document raw)
      → Any (λ h. h ≡ g) (ground_structured u subject document raw id)
  unfolding ground_prose ground_structured accept_items
  ground_prose-ground_structured subject document raw id g h =
      elim (Bool-cases (has_statement id)) [
        | inl given ↦ rw given (
            holds-valid_only _ raw g (
              Any-mono raw (λ item. valid-structured item document subject g)
                (valid_only-holds _ raw g h)))
        | inr blank ↦ rw blank h
      ]
