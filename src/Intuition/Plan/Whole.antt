-- ===== src/Intuition/Plan/Whole.antt =====
-- Planned debates are made whatever the input, and hold the atoms of their triples.
use talaria_v.Base.{
  ◌≡◌, refl, sym, subst, ◌⊎◌, inl, inr, true, false, List, [], ◌∷◌, ◌++◌, Option, none, some, All,
  All-mono, All-append, arith, Bool-cases,
}
use talaria_v.Text.{Text, codes, text_eq, is, is_one_of}
use talaria_v.Text.Equality.{text_eq_iff}
use talaria_v.Text.Unicode.{Unicode}
use talaria_v.Intuition.Slug.{Transliteration, ok, is_vocab_kind}
use talaria_v.Intuition.Json.{Json}
use talaria_v.Intuition.Canon.{
  AtomRecord, TripleRecord, DebateBundle, has_id, push_new, situated_context_triples,
}
use talaria_v.Intuition.Canon.Linked.{
  Has, IsDistinct, Linked, LinkedTo, IsWhole, slug_of, push_new-Has, push_new-keeps,
  build_debate_bundle-IsWhole, situated_context_triples-LinkedTo, atom_record-known,
}
use talaria_v.Intuition.Plan.{
  ConflictGroup, SoftClaimInput, PlannedDebate, extend_new, attach, merge_situated, push_person,
  debate_id_of, conflict_question, conflict_question_fragment, claim_question,
  debate_from_place_conflict, debate_from_soft_claim,
}

text_eq_sym : (s t : Text) → text_eq s t ≡ false → text_eq t s ≡ false
text_eq_sym s t h = elim (Bool-cases (text_eq t s)) [
  | inl e ↦ absurd (cc (h, (text_eq_iff s t).1 (sym ((text_eq_iff t s).0 e))))
  | inr e ↦ e
]

has_id-append_new :
    (id : Text) (xs : List AtomRecord) (a : AtomRecord)
    → has_id id xs ≡ false
    → text_eq (a.id) id ≡ false
    → has_id id (xs ++ a ∷ []) ≡ false
has_id-append_new id [] a h k = rw k refl
has_id-append_new id (x ∷ xs) a h k =
    ground (arith, h, has_id-append_new id xs a (ground (arith, h)) k)

append_new-IsDistinct :
    (xs : List AtomRecord) (a : AtomRecord)
    → IsDistinct xs
    → has_id (a.id) xs ≡ false
    → IsDistinct (xs ++ a ∷ [])
append_new-IsDistinct [] a h k = (refl, tt)
append_new-IsDistinct (x ∷ xs) a h k = (
  has_id-append_new (x.id) xs a h.0 (text_eq_sym (x.id) (a.id) (ground (arith, k))),
  append_new-IsDistinct xs a h.1 (ground (arith, k)),
)

push_new-IsDistinct :
    (xs : List AtomRecord) (a : AtomRecord) → IsDistinct xs → IsDistinct (push_new xs a)
push_new-IsDistinct xs a h = elim (Bool-cases (has_id (a.id) xs)) [
  | inl there ↦ rw there h
  | inr new ↦ rw new (append_new-IsDistinct xs a h new)
]

extend_new-IsDistinct :
    (xs added : List AtomRecord) → IsDistinct xs → IsDistinct (extend_new xs added)
unfolding extend_new
extend_new-IsDistinct xs [] h = h
extend_new-IsDistinct xs (a ∷ added) h =
    extend_new-IsDistinct (push_new xs a) added (push_new-IsDistinct xs a h)

extend_new-keeps :
    (xs added : List AtomRecord) (id : Text) → Has xs id → Has (extend_new xs added) id
unfolding extend_new
extend_new-keeps xs [] id h = h
extend_new-keeps xs (a ∷ added) id h =
    extend_new-keeps (push_new xs a) added id (push_new-keeps xs a id h)

extend_new-Has :
    (xs added : List AtomRecord) (id : Text) → Has added id → Has (extend_new xs added) id
unfolding extend_new
extend_new-Has xs [] id h = cc h
extend_new-Has xs (a ∷ added) id h = elim (Bool-cases (text_eq (a.id) id)) [
  | inl same ↦
      extend_new-keeps (push_new xs a) added id
        (subst (Has (push_new xs a)) ((text_eq_iff (a.id) id).0 same) (push_new-Has xs a))
  | inr other ↦ extend_new-Has (push_new xs a) added id (ground (arith, h))
]

Linked-mono :
    (xs ys : List AtomRecord) (tr : TripleRecord)
    → ((id : Text) → Has xs id → Has ys id)
    → Linked xs tr
    → Linked ys tr
Linked-mono xs ys tr f h = (f (tr.subject) h.0, f (tr.predicate) h.1, f (tr.object) h.2)

LinkedTo-Has :
    (other : Text) (xs ys : List AtomRecord) (tr : TripleRecord)
    → Has ys other
    → ((id : Text) → Has xs id → Has ys id)
    → (tr.subject ≡ other) ⊎ Has xs (tr.subject)
    → Has ys (tr.subject)
LinkedTo-Has other xs ys tr h f (inl e) = rw e h
LinkedTo-Has other xs ys tr h f (inr k) = f (tr.subject) k

-- New atoms, and triples between them or from the proposition, keep a bundle whole.
attach-IsWhole :
    (b : DebateBundle) (eid : Text) (r : List AtomRecord × List TripleRecord)
    → IsWhole b
    → All (LinkedTo (b.vote_target.proposition_atom_id) r.0) r.1
    → IsWhole (attach b eid (ok r))
unfolding attach
attach-IsWhole b eid (added, triples) h linked =
    let atoms = extend_new b.atoms added in
    let keeps = extend_new-keeps b.atoms added in
    let prop = keeps (b.vote_target.proposition_atom_id) h.2 in
    let fresh = λ (id : Text) (k : Has added id). extend_new-Has b.atoms added id k in
    let old = All-mono b.triples (λ tr k. Linked-mono b.atoms atoms tr keeps k) h.1 in
    let new =
      All-mono triples
        (λ tr k. (
          LinkedTo-Has (b.vote_target.proposition_atom_id) added atoms tr prop fresh k.0,
          fresh (tr.predicate) k.1,
          fresh (tr.object) k.2,
        ))
        linked in
    (
      extend_new-IsDistinct b.atoms added h.0,
      All-append (Linked atoms) b.triples triples old new,
      prop,
      keeps (b.vote_target.question_atom_id) h.3,
    )

push-IsWhole : (b : DebateBundle) (a : AtomRecord) → IsWhole b → IsWhole (push_person b (ok a))
push-IsWhole b a h =
    let atoms = push_new b.atoms a in
    let keeps = push_new-keeps b.atoms a in
    (
      push_new-IsDistinct b.atoms a h.0,
      All-mono b.triples (λ tr k. Linked-mono b.atoms atoms tr keeps k) h.1,
      keeps (b.vote_target.proposition_atom_id) h.2,
      keeps (b.vote_target.question_atom_id) h.3,
    )

person_known : is_vocab_kind (codes "person") ≡ true
unfolding is_vocab_kind is_one_of is text_eq codes
person_known = refl

module _ (u : Unicode) (t : Transliteration) (digest : Json → Text) where
  abbrev Situated : Text → Text → Option Text → Option Text → Type 0
  Situated prop eid event_title place =
      (r : List AtomRecord × List TripleRecord) × (situated_context_triples u t digest prop eid
          event_title place
        ≡ ok r)
      × All (LinkedTo prop r.0) r.1

  merge_situated-IsWhole :
      (b : DebateBundle) (raw : Text) (event_id event_title place : Option Text)
      → IsWhole b
      → b.vote_target.proposition_atom_id ≡ slug_of u t digest (codes "proposition") raw
      → IsWhole (merge_situated u t digest b event_id event_title place)
  unfolding merge_situated
  merge_situated-IsWhole b raw none event_title place h e = h
  merge_situated-IsWhole b raw (some []) event_title place h e = h
  merge_situated-IsWhole b raw (some (c ∷ eid)) event_title place h e =
      let (r, done, linked) =
        subst (λ prop. Situated prop (c ∷ eid) event_title place) (sym e)
          (situated_context_triples-LinkedTo u t digest raw (c ∷ eid) event_title place) in
      rw done (attach-IsWhole b (c ∷ eid) r h linked)

  conflict-IsWhole :
      (group : ConflictGroup) (place : Text)
      → (p : PlannedDebate) × (debate_from_place_conflict u t digest group place ≡ ok p)
        × IsWhole p.bundle
  unfolding debate_from_place_conflict
  conflict-IsWhole group place =
      let (b, made, form, whole) =
        build_debate_bundle-IsWhole u t digest
          (debate_id_of u t (conflict_question_fragment group) (codes "at-" ++ place))
          (conflict_question_fragment group) (conflict_question group) (codes "at-" ++ place)
          place in
      let person =
        atom_record-known u t digest (codes "person") group.subject_label (some group.subject_label)
          person_known in
      rw (made, person)
        (
          _,
          refl,
          push-IsWhole (merge_situated u t digest b group.event_id group.event_title (some place)) _
              (merge_situated-IsWhole b (codes "at-" ++ place) group.event_id group.event_title
                (some place) whole form),
        )

  claim-IsWhole :
      (claim : SoftClaimInput)
      → (p : PlannedDebate) × (debate_from_soft_claim u t digest claim ≡ ok p) × IsWhole p.bundle
  unfolding debate_from_soft_claim
  claim-IsWhole claim =
      let (b, made, form, whole) =
        build_debate_bundle-IsWhole u t digest
          (debate_id_of u t (codes "about-" ++ claim.subject_label)
            (codes "claim-" ++ claim.claim_id))
          (codes "about-" ++ claim.subject_label) (claim_question claim)
          (codes "claim-" ++ claim.claim_id) claim.text in
      rw made (
        _,
        refl,
        merge_situated-IsWhole b (codes "claim-" ++ claim.claim_id) claim.event_id claim.event_title
            claim.place_label whole form,
      )

  -- Planning a debate never fails, and the bundle is whole: no two atoms have one id, the ends of
  -- every triple are atoms of the bundle, and so are the proposition and the question to vote on.
  pub debate_from-IsWhole :
      (group : ConflictGroup) (place : Text) (claim : SoftClaimInput)
      → ((p : PlannedDebate) × (debate_from_place_conflict u t digest group place ≡ ok p)
          × IsWhole p.bundle)
        × ((p : PlannedDebate) × (debate_from_soft_claim u t digest claim ≡ ok p)
            × IsWhole p.bundle)
  debate_from-IsWhole group place claim = (conflict-IsWhole group place, claim-IsWhole claim)
