-- ===== src/Intuition/Canon.antt =====
-- Atoms, triples and bundles of debates: the second part of crates/talaria-intuition/src/canon.rs.
pub mod Linked
use talaria_v.Base.{
  Bool, not, List, [], ◌∷◌, ◌++◌, Option, none, some, map, any, ◌==◌, if◌then◌else◌, is_empty, pos,
  unwrap_or,
}
use talaria_v.Text.{Text, codes, is, text_eq, trim}
use talaria_v.Text.Unicode.{Unicode}
use talaria_v.Intuition.Slug.{
  Transliteration, Canon, ok, err, ◌>>=◌, validate_kind, parse_full_slug, normalize_slug_fragment,
}
use talaria_v.Intuition.Json.{Json, number, string, object, entry, end, fingerprint_hex}

pub record AtomRecord : Type 0 where
  pub id : Text
  pub kind : Text
  pub slug_fragment : Text
  pub label : Option Text
  pub on_chain_data : Text
  pub fingerprint : Text

pub record TripleRecord : Type 0 where
  pub subject : Text
  pub predicate : Text
  pub object : Text
  pub role : Text
  pub fact_kind : Text
  pub fingerprint : Text
  pub dedupe_key : Text

pub record VoteTarget : Type 0 where
  pub triple_slug : Text
  pub triple_fingerprint : Text
  pub proposition_atom_id : Text
  pub question_atom_id : Text

pub record SituatedContext : Type 0 where
  pub canonical_event_id : Text
  pub triple_roles : List Text

pub record DebateBundle : Type 0 where
  pub version : Text
  pub debate_id : Text
  pub atoms : List AtomRecord
  pub triples : List TripleRecord
  pub vote_target : VoteTarget
  pub situated_context : Option SituatedContext

-- `key.replace('_', " ")`
unfoldable pub underscores_to_spaces : Text → Text
underscores_to_spaces s = map (λ c. if c == b'_' then b' ' else c) s

-- The `match` of `predicate_atom`; its other arms keep the key.
unfoldable pub predicate_fragment : Text → Text
unfolding codes is
predicate_fragment key =
    if is key "has_proposition"
    then codes "has-proposition"
    else if is key "supported_by"
    then codes "supported-by"
    else if is key "authored_by"
    then codes "authored-by"
    else key

-- `iter().any(|a| a.id == id)`
abbrev pub has_id : Text → List AtomRecord → Bool
has_id id atoms = any (λ a. text_eq (a.id) id) atoms

-- `push` of an atom whose id is not there yet.
abbrev pub push_new : List AtomRecord → AtomRecord → List AtomRecord
push_new atoms a = if has_id (a.id) atoms then atoms else atoms ++ a ∷ []

-- `place_name.filter(|p| !p.trim().is_empty())`
abbrev pub filter_not_blank : Option Text → Option Text
filter_not_blank none = none
filter_not_blank (some p) = if is_empty (trim p) then none else some p

module _ (u : Unicode) (t : Transliteration) (digest : Json → Text) where
  -- The record that `atom_record` builds for a kind that it knows.
  abbrev pub atom_of : Text → Text → Option Text → AtomRecord
  atom_of kind fragment label =
      let slug_fragment = normalize_slug_fragment u t fragment in
      let slug = kind ++ b':' ∷ slug_fragment in
      record {
        id = slug;
        kind = kind;
        slug_fragment = slug_fragment;
        label = label;
        on_chain_data = slug;
        fingerprint = fingerprint_hex digest (
            object (
              entry (codes "v") (number (pos 1)) (
                entry (codes "kind") (string kind)
                  (entry (codes "fragment") (string slug_fragment) end))));
      }

  unfoldable pub atom_record : Text → Text → Option Text → Canon AtomRecord
  unfolding validate_kind
  atom_record kind fragment label = validate_kind kind >>= λ k. ok (atom_of k fragment label)

  unfoldable pub predicate_atom : Text → Canon AtomRecord
  unfolding atom_record predicate_fragment underscores_to_spaces
  predicate_atom key =
      atom_record (codes "predicate") (predicate_fragment key) (some (underscores_to_spaces key))

  -- The record that `triple_record` builds for slugs that it can read.
  abbrev pub triple_of : Text → Text → Text → Text → Text → TripleRecord
  triple_of subject_slug predicate_slug object_slug role fact_kind = record {
    subject = subject_slug;
    predicate = predicate_slug;
    object = object_slug;
    role = role;
    fact_kind = fact_kind;
    fingerprint = fingerprint_hex digest (
        object (
          entry (codes "v") (number (pos 1)) (
            entry (codes "subject") (string subject_slug) (
              entry (codes "predicate") (string predicate_slug) (
                entry (codes "object") (string object_slug)
                  (entry (codes "role") (string role) end))))));
    dedupe_key = subject_slug ++ b'|' ∷ (predicate_slug ++ b'|' ∷ object_slug);
  }

  unfoldable pub triple_record : Text → Text → Text → Text → Text → Canon TripleRecord
  unfolding parse_full_slug
  triple_record subject_slug predicate_slug object_slug role fact_kind =
      parse_full_slug subject_slug >>= λ s. parse_full_slug predicate_slug >>= λ p.
      parse_full_slug object_slug >>= λ o.
      ok (triple_of subject_slug predicate_slug object_slug role fact_kind)

  -- The part of `situated_context_triples` behind `if let Some(place)`.
  unfoldable pub with_place :
      AtomRecord
      → Option Text
      → List AtomRecord × List TripleRecord
      → Canon (List AtomRecord × List TripleRecord)
  unfolding atom_record predicate_atom triple_record
  with_place event_atom none found = ok found
  with_place event_atom (some place) (atoms, triples) =
      atom_record (codes "place") place (some place) >>= λ place_atom.
      predicate_atom (codes "at") >>= λ pred_at.
      let atoms = push_new (push_new atoms place_atom) pred_at in
      triple_record (event_atom.id) (pred_at.id) (place_atom.id) (codes "event_at_place")
        (codes "semantic")
      >>= λ triple. ok (atoms, triples ++ triple ∷ [])

  unfoldable pub situated_context_triples :
      Text → Text → Option Text → Option Text → Canon (List AtomRecord × List TripleRecord)
  unfolding atom_record predicate_atom triple_record with_place trim
  situated_context_triples proposition_slug event_id event_title place_name =
      atom_record (codes "event") (codes "canonical-event-" ++ event_id)
        (some (unwrap_or event_title (codes "Canonical event")))
      >>= λ event_atom. predicate_atom (codes "about") >>= λ pred_about.
          triple_record proposition_slug (pred_about.id) (event_atom.id)
            (codes "proposition_about_event") (codes "semantic")
          >>= λ triple.
              with_place event_atom (filter_not_blank place_name)
                (event_atom ∷ pred_about ∷ [], triple ∷ [])

  unfoldable pub build_debate_bundle : Text → Text → Text → Text → Text → Canon DebateBundle
  unfolding atom_record predicate_atom triple_record
  build_debate_bundle debate_id question_fragment question_title proposition_fragment
        proposition_title =
      atom_record (codes "question") question_fragment (some question_title) >>= λ q.
      atom_record (codes "proposition") proposition_fragment (some proposition_title) >>= λ p.
      predicate_atom (codes "has_proposition") >>= λ pred.
      triple_record (q.id) (pred.id) (p.id) (codes "question_has_proposition") (codes "semantic")
      >>= λ main. ok record {
        version = codes "talaria.intuition_canon.v1";
        debate_id = debate_id;
        atoms = q ∷ p ∷ pred ∷ [];
        triples = main ∷ [];
        vote_target = record {
          triple_slug = main.dedupe_key;
          triple_fingerprint = main.fingerprint;
          proposition_atom_id = p.id;
          question_atom_id = q.id;
        };
        situated_context = none;
      }
