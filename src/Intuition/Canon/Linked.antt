-- ===== src/Intuition/Canon/Linked.antt =====
-- Atoms of known kinds are always made, and so are the triples between them.
use talaria_v.Base.{
  ◌≡◌, refl, ◌⊎◌, ◌||◌, inl, inr, true, false, List, [], ◌∷◌, ◌++◌, Option, none, some, unwrap_or,
  All, arith, Bool-cases,
}
use talaria_v.Text.{Text, codes, text_eq, is_one_of, is}
use talaria_v.Text.Equality.{text_eq_refl}
use talaria_v.Text.Unicode.{Unicode}
use talaria_v.Intuition.Slug.{
  Transliteration, ok, is_vocab_kind, validate_kind, normalize_slug_fragment, parse_full_slug,
  split_once_colon,
}
use talaria_v.Intuition.Slug.RoundTrip.{parse_full_slug-append}
use talaria_v.Intuition.Json.{Json}
use talaria_v.Intuition.Canon.{
  AtomRecord, TripleRecord, DebateBundle, has_id, push_new, atom_record, atom_of, predicate_atom,
  predicate_fragment, underscores_to_spaces, triple_record, triple_of, with_place,
  situated_context_triples, filter_not_blank, build_debate_bundle,
}

-- An atom with the id is among the atoms.
abbrev pub Has : List AtomRecord → Text → Type 0
Has atoms id = has_id id atoms ≡ true

Has-append_left : (id : Text) (xs ys : List AtomRecord) → Has xs id → Has (xs ++ ys) id
Has-append_left id [] ys h = cc
Has-append_left id (a ∷ xs) ys h = ground (arith, h, Has-append_left id xs ys)

Has-append_right : (id : Text) (xs ys : List AtomRecord) → Has ys id → Has (xs ++ ys) id
Has-append_right id [] ys h = h
Has-append_right id (a ∷ xs) ys h = ground (arith, Has-append_right id xs ys h)

Has-self : (a : AtomRecord) (xs : List AtomRecord) → Has (a ∷ xs) (a.id)
Has-self a xs = rw (text_eq_refl (a.id)) refl

pub push_new-Has : (xs : List AtomRecord) (a : AtomRecord) → Has (push_new xs a) (a.id)
push_new-Has xs a = elim (Bool-cases (has_id (a.id) xs)) [
  | inl there ↦ rw there there
  | inr new ↦ rw new (Has-append_right (a.id) xs (a ∷ []) (Has-self a []))
]

pub push_new-keeps :
    (xs : List AtomRecord) (a : AtomRecord) (id : Text) → Has xs id → Has (push_new xs a) id
push_new-keeps xs a id h = elim (Bool-cases (has_id (a.id) xs)) [
  | inl there ↦ rw there h
  | inr new ↦ rw new (Has-append_left id xs (a ∷ []) h)
]

or_false : (s : Text) → (text_eq s s || false) ≡ true
or_false s = rw (text_eq_refl s) refl

-- No two atoms have one id.
abbrev pub IsDistinct : List AtomRecord → Type 0
IsDistinct [] = Unit
IsDistinct (a ∷ xs) = (has_id (a.id) xs ≡ false) × IsDistinct xs

-- The ends of a triple are among the atoms.
abbrev pub Linked : List AtomRecord → TripleRecord → Type 0
Linked atoms tr = Has atoms (tr.subject) × Has atoms (tr.predicate) × Has atoms (tr.object)

-- What a bundle has from the start and keeps.
abbrev pub IsWhole : DebateBundle → Type 0
IsWhole b =
    IsDistinct b.atoms
    × All (Linked b.atoms) b.triples
    × Has b.atoms (b.vote_target.proposition_atom_id)
    × Has b.atoms (b.vote_target.question_atom_id)

-- The predicate and the object of a triple are among the atoms, and its subject is, or is `other`.
abbrev pub LinkedTo : Text → List AtomRecord → TripleRecord → Type 0
LinkedTo other atoms tr =
    ((tr.subject ≡ other) ⊎ Has atoms (tr.subject))
    × Has atoms (tr.predicate)
    × Has atoms (tr.object)

module _ (u : Unicode) (t : Transliteration) (digest : Json → Text) where
  abbrev pub slug_of : Text → Text → Text
  slug_of kind fragment = kind ++ b':' ∷ normalize_slug_fragment u t fragment

  pub atom_record-known :
      (kind fragment : Text) (label : Option Text)
      → is_vocab_kind kind ≡ true
      → atom_record u t digest kind fragment label ≡ ok (atom_of u t digest kind fragment label)
  unfolding atom_record validate_kind
  atom_record-known kind fragment label h = rw h refl

  pub triple_record-known :
      (k l m f g h role fact_kind : Text)
      → is_vocab_kind k ≡ true
      → is_vocab_kind l ≡ true
      → is_vocab_kind m ≡ true
      → triple_record u t digest (k ++ b':' ∷ f) (l ++ b':' ∷ g) (m ++ b':' ∷ h) role fact_kind
        ≡ ok (triple_of u t digest (k ++ b':' ∷ f) (l ++ b':' ∷ g) (m ++ b':' ∷ h) role fact_kind)
  unfolding triple_record
  triple_record-known k l m f g h role fact_kind known_k known_l known_m =
      rw
        (
          parse_full_slug-append k f known_k,
          parse_full_slug-append l g known_l,
          parse_full_slug-append m h known_m,
        )
        refl

  pub build_debate_bundle-IsWhole :
      (debate_id qf qt pf pt : Text)
      → (b : DebateBundle) × (build_debate_bundle u t digest debate_id qf qt pf pt ≡ ok b)
        × (b.vote_target.proposition_atom_id ≡ slug_of (codes "proposition") pf)
        × IsWhole b
  unfolding build_debate_bundle atom_record triple_record predicate_atom validate_kind codes
      parse_full_slug is_vocab_kind is_one_of is text_eq predicate_fragment split_once_colon
      underscores_to_spaces
  build_debate_bundle-IsWhole debate_id qf qt pf pt =
      let q = or_false (normalize_slug_fragment u t qf) in
      let p = or_false (normalize_slug_fragment u t pf) in
      let pred = or_false (normalize_slug_fragment u t (codes "has-proposition")) in
      (_, refl, refl, ((refl, (refl, (refl, tt))), ((q, pred, p), tt), p, q))

  abbrev event_of : Text → Option Text → AtomRecord
  event_of event_id title =
      atom_of u t digest (codes "event") (codes "canonical-event-" ++ event_id)
        (some (unwrap_or title (codes "Canonical event")))

  abbrev predicate_of : Text → AtomRecord
  predicate_of key =
      atom_of u t digest (codes "predicate") (predicate_fragment key)
        (some (underscores_to_spaces key))

  abbrev about_triple : Text → AtomRecord → TripleRecord
  about_triple prop event =
      triple_of u t digest prop ((predicate_of (codes "about")).id) (event.id)
        (codes "proposition_about_event") (codes "semantic")

  with_place-LinkedTo :
      (prop event_id : Text) (title placed : Option Text)
      → (r : List AtomRecord × List TripleRecord) × (with_place u t digest
            (event_of event_id title)
            placed
            (
              event_of event_id title ∷ predicate_of (codes "about") ∷ [],
              about_triple prop (event_of event_id title) ∷ [],
            )
          ≡ ok r)
        × All (LinkedTo prop r.0) r.1
  unfolding with_place atom_record triple_record predicate_atom validate_kind codes parse_full_slug
      is_vocab_kind is_one_of is text_eq predicate_fragment split_once_colon underscores_to_spaces
  with_place-LinkedTo prop event_id title none =
      let event = or_false (normalize_slug_fragment u t (codes "canonical-event-" ++ event_id)) in
      (_, refl, ((inl refl, or_false (normalize_slug_fragment u t (codes "about")), event), tt))
  with_place-LinkedTo prop event_id title (some place) =
      let event = event_of event_id title in
      let about = predicate_of (codes "about") in
      let place_atom = atom_of u t digest (codes "place") place (some place) in
      let at = predicate_of (codes "at") in
      let start = event ∷ about ∷ [] in
      let with_it = push_new start place_atom in
      let keeps = λ (id : Text) (h : Has start id).
        push_new-keeps with_it at id (push_new-keeps start place_atom id h) in
      let has_event = keeps (event.id) (Has-self event (about ∷ [])) in
      let has_about =
        keeps (about.id)
          (Has-append_right (about.id) (event ∷ []) (about ∷ []) (Has-self about [])) in
      let has_place = push_new-keeps with_it at (place_atom.id) (push_new-Has start place_atom) in
      (
        _,
        refl,
        (
          (inl refl, has_about, has_event),
          ((inr has_event, push_new-Has with_it at, has_place), tt),
        ),
      )

  pub situated_context_triples-LinkedTo :
      (raw event_id : Text) (title place : Option Text)
      → (r : List AtomRecord × List TripleRecord) × (situated_context_triples u t digest
            (slug_of (codes "proposition") raw)
            event_id
            title
            place
          ≡ ok r)
        × All (LinkedTo (slug_of (codes "proposition") raw) r.0) r.1
  unfolding situated_context_triples atom_record triple_record predicate_atom validate_kind codes
      parse_full_slug is_vocab_kind is_one_of is text_eq predicate_fragment split_once_colon
      underscores_to_spaces
  situated_context_triples-LinkedTo raw event_id title place =
      with_place-LinkedTo (slug_of (codes "proposition") raw) event_id title
        (filter_not_blank place)
