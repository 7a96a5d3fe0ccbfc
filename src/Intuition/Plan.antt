-- ===== src/Intuition/Plan.antt =====
-- Planned debates: crates/talaria-intuition/src/plan.rs.
pub mod Whole
use talaria_v.Base.{List, [], ◌∷◌, ◌++◌, Option, none, some, map, if◌then◌else◌, is_empty}
use talaria_v.Text.{Text, codes}
use talaria_v.Text.Unicode.{Unicode}
use talaria_v.Intuition.Slug.{Transliteration, Canon, ok, err, ◌>>=◌, normalize_slug_fragment}
use talaria_v.Intuition.Json.{Json}
use talaria_v.Intuition.Canon.{
  AtomRecord, TripleRecord, DebateBundle, push_new, atom_record, situated_context_triples,
  build_debate_bundle,
}

pub record ConflictGroup : Type 0 where
  pub subject_label : Text
  pub occurrence_stem : Text
  pub event_type : Text
  pub time_key : Text
  pub places : List Text
  pub event_id : Option Text
  pub event_title : Option Text

pub record SoftClaimInput : Type 0 where
  pub subject_label : Text
  pub claim_id : Text
  pub claim_kind : Text
  pub text : Text
  pub event_id : Option Text
  pub event_title : Option Text
  pub place_label : Option Text
  pub event_type : Option Text
  pub time_surface : Option Text

pub record PlannedDebate : Type 0 where
  pub kind : Text
  pub debate_id : Text
  pub question_label : Text
  pub proposition_label : Text
  pub bundle : DebateBundle

-- The question's and the proposition's fragments of a place conflict, and the question itself.
unfoldable pub conflict_question_fragment : ConflictGroup → Text
unfolding codes
conflict_question_fragment group =
    codes "where-" ++ (group.subject_label ++ b'-' ∷ (group.event_type ++ b'-' ∷ group.time_key))

unfoldable pub conflict_question : ConflictGroup → Text
unfolding codes
conflict_question group =
    codes "Where was "
    ++ (group.subject_label
        ++ (codes " during "
            ++ (group.event_type ++ (codes " (" ++ (group.time_key ++ codes ")?")))))

unfoldable pub claim_question : SoftClaimInput → Text
unfolding codes
claim_question claim = codes "What is claimed about " ++ (claim.subject_label ++ codes "?")

-- The loop over the atoms found: those with a new id are pushed.
unfoldable pub extend_new : List AtomRecord → List AtomRecord → List AtomRecord
extend_new atoms [] = atoms
extend_new atoms (a ∷ more) = extend_new (push_new atoms a) more

unfoldable pub attach :
    DebateBundle → Text → Canon (List AtomRecord × List TripleRecord) → DebateBundle
unfolding extend_new
attach bundle eid (err e) = bundle
attach bundle eid (ok (atoms, triples)) = record bundle {
  atoms = extend_new bundle.atoms atoms;
  triples = bundle.triples ++ triples;
  situated_context =
      some record { canonical_event_id = eid; triple_roles = map (λ tr. tr.role) triples };
}

-- `if let Ok(person)`.
abbrev pub push_person : DebateBundle → Canon AtomRecord → DebateBundle
push_person bundle (err e) = bundle
push_person bundle (ok person) = record bundle { atoms = push_new bundle.atoms person }

module _ (u : Unicode) (t : Transliteration) where
  unfoldable pub debate_id_of : Text → Text → Text
  unfolding normalize_slug_fragment codes
  debate_id_of q_frag p_frag =
      codes "talaria:debate:"
      ++ (normalize_slug_fragment u t q_frag ++ b':' ∷ normalize_slug_fragment u t p_frag)

module _ (u : Unicode) (t : Transliteration) (digest : Json → Text) where
  unfoldable pub merge_situated :
      DebateBundle → Option Text → Option Text → Option Text → DebateBundle
  unfolding attach
  merge_situated bundle none event_title place = bundle
  merge_situated bundle (some eid) event_title place =
      if is_empty eid
      then bundle
      else attach bundle eid (
          situated_context_triples u t digest (bundle.vote_target.proposition_atom_id) eid
            event_title place)

  unfoldable pub debate_from_place_conflict : ConflictGroup → Text → Canon PlannedDebate
  debate_from_place_conflict group place =
      let q_frag = conflict_question_fragment group in
      let p_frag = codes "at-" ++ place in
      let debate_id = debate_id_of u t q_frag p_frag in
      let q_title = conflict_question group in
      build_debate_bundle u t digest debate_id q_frag q_title p_frag place >>= λ bundle.
      let bundle = merge_situated bundle group.event_id group.event_title (some place) in
      let bundle =
        push_person bundle (
          atom_record u t digest (codes "person") group.subject_label (some group.subject_label)) in
      ok record {
        kind = codes "place_conflict";
        debate_id = debate_id;
        question_label = q_title;
        proposition_label = place;
        bundle = bundle;
      }

  unfoldable pub debate_from_soft_claim : SoftClaimInput → Canon PlannedDebate
  debate_from_soft_claim claim =
      let q_frag = codes "about-" ++ claim.subject_label in
      let p_frag = codes "claim-" ++ claim.claim_id in
      let debate_id = debate_id_of u t q_frag p_frag in
      let q_title = claim_question claim in
      build_debate_bundle u t digest debate_id q_frag q_title p_frag claim.text >>= λ bundle.
      ok record {
        kind = claim.claim_kind;
        debate_id = debate_id;
        question_label = q_title;
        proposition_label = claim.text;
        bundle = merge_situated bundle claim.event_id claim.event_title claim.place_label;
      }
