-- ===== src/Resolve/Kinds.antt =====
-- What the resolution makes of the surface of a place, and what the gates make of that.
use talaria_v.Base.{
  ◌≡◌, refl, ◌↔◌, inl, inr, true, false, List, [], ◌∷◌, Option, none, some, arith, Any, subst, sym,
  ◌∙◌,
}
use talaria_v.Text.{Text}
use talaria_v.Text.Unicode.{Unicode}
use talaria_v.Gates.Candidate.{
  EntityKind, place, unknown, is_place, is_person, ParticipantRole, EventCandidate,
}
use talaria_v.Gates.Codes.{invalid_place_kind}
use talaria_v.Gates.{GateContext, apply_gates}
use talaria_v.Gates.Reasons.{reports, IsMisplaced, apply_gates-reports_iff}
use talaria_v.Resolve.{
  Resolver, ResolvedMentions, no_mentions, mention, surface_of, push_object, place_answer,
  with_place, with_object, with_participants, resolve_mentions, second,
}

-- What a resolution says of the place, for the surface and the answer of the resolver.
abbrev Says : ResolvedMentions → Text → Option (Text × EntityKind) → Type 0
Says out raw none =
    (out.place_mentions ≡ mention raw unknown none ∷ [])
    × (out.place_label ≡ some raw)
    × (out.place_kind ≡ some unknown)
    × (out.invalid_place_attempt ≡ false)
Says out raw (some (label, place)) =
    (out.place_mentions ≡ mention label place none ∷ [])
    × (out.place_label ≡ some label)
    × (out.place_kind ≡ some place)
    × (out.invalid_place_attempt ≡ false)
Says out raw (some (label, kind)) =
    (out.place_mentions ≡ [])
    × (out.place_label ≡ none)
    × (out.place_kind ≡ none)
    × (out.invalid_place_attempt ≡ true)

-- The same, with no surface where there is none.
abbrev pub SaysPlace : Resolver → ResolvedMentions → Option Text → Type 0
SaysPlace resolver out none =
    (out.place_mentions ≡ [])
    × (out.place_label ≡ none)
    × (out.place_kind ≡ none)
    × (out.invalid_place_attempt ≡ false)
SaysPlace resolver out (some raw) = Says out raw (resolver raw)

-- Two resolutions agree on the place.
abbrev SamePlace : ResolvedMentions → ResolvedMentions → Type 0
SamePlace r s =
    (r.place_mentions ≡ s.place_mentions)
    × (r.place_label ≡ s.place_label)
    × (r.place_kind ≡ s.place_kind)
    × (r.invalid_place_attempt ≡ s.invalid_place_attempt)

push_object-SamePlace :
    (out : ResolvedMentions) (label : Text) (kind : EntityKind)
    → SamePlace (push_object out label kind) out
unfolding push_object is_person
push_object-SamePlace out label kind = ground arith

with_object-SamePlace :
    (resolver : Resolver) (out : ResolvedMentions) (raw : Option Text)
    → SamePlace (with_object resolver out raw) out
unfolding with_object
with_object-SamePlace resolver out none = (refl, refl, refl, refl)
with_object-SamePlace resolver out (some obj) = push_object-SamePlace out _ _

place_answer-Says :
    (kind : Option EntityKind) (raw : Text) (answer : Option (Text × EntityKind))
    → Says (place_answer (record no_mentions { subject_kind = kind }) raw answer) raw answer
unfolding place_answer push_object is_place is_person
place_answer-Says kind raw none = (refl, refl, refl, refl)
place_answer-Says kind raw (some (label, place)) = (refl, refl, refl, refl)
place_answer-Says kind raw (some (label, other)) = (refl, refl, refl, refl)

Says-SamePlace :
    (r s : ResolvedMentions) (raw : Text) (answer : Option (Text × EntityKind))
    → SamePlace r s
    → Says s raw answer
    → Says r raw answer
Says-SamePlace r s raw none (a, b, c, d) (a', b', c', d') = (a ∙ a', b ∙ b', c ∙ c', d ∙ d')
Says-SamePlace r s raw (some (label, place)) (a, b, c, d) (a', b', c', d') =
    (a ∙ a', b ∙ b', c ∙ c', d ∙ d')
Says-SamePlace r s raw (some (label, other)) (a, b, c, d) (a', b', c', d') =
    (a ∙ a', b ∙ b', c ∙ c', d ∙ d')

SaysPlace-SamePlace :
    (resolver : Resolver) (r s : ResolvedMentions) (raw : Option Text)
    → SamePlace r s
    → SaysPlace resolver s raw
    → SaysPlace resolver r raw
SaysPlace-SamePlace resolver r s none (a, b, c, d) (a', b', c', d') =
    (a ∙ a', b ∙ b', c ∙ c', d ∙ d')
SaysPlace-SamePlace resolver r s (some raw) h k = Says-SamePlace r s raw (resolver raw) h k

with_place-SaysPlace :
    (resolver : Resolver) (kind : Option EntityKind) (raw : Option Text)
    → SaysPlace resolver (with_place resolver (record no_mentions { subject_kind = kind }) raw) raw
unfolding with_place
with_place-SaysPlace resolver kind none = (refl, refl, refl, refl)
with_place-SaysPlace resolver kind (some raw) = place_answer-Says kind raw (resolver raw)

module _ (c : EventCandidate) (resolver : Resolver) (raw_place raw_object : Option Text)
    (participants : List (Text × ParticipantRole)) where
  abbrev resolved : ResolvedMentions
  resolved = resolve_mentions c resolver raw_place raw_object participants

  -- The resolution keeps a place only where the resolver says that the surface is one, and an unknown
  -- surface as a mention of unknown kind; where the resolver knows the surface as something else, no
  -- place is kept and the attempt is flagged; a blank surface leaves no place.
  pub resolve_mentions-SaysPlace : SaysPlace resolver resolved (surface_of raw_place)
  unfolding resolve_mentions with_participants
  resolve_mentions-SaysPlace =
      let placed =
        with_place resolver
          (record no_mentions { subject_kind = second (resolver c.subject_surface) })
          (surface_of raw_place) in
      SaysPlace-SamePlace resolver resolved placed (surface_of raw_place)
        (with_object-SamePlace resolver placed (surface_of raw_object))
        (with_place-SaysPlace resolver (second (resolver c.subject_surface)) (surface_of raw_place))

unknown_not_place : (raw : Text) → IsMisplaced (mention raw unknown none)
unknown_not_place raw = (unknown, refl, ground arith)

place-not-IsMisplaced : (label : Text) → ¬ IsMisplaced (mention label place none)
place-not-IsMisplaced label (kind, same, other) = ground arith

answer-IsMisplaced_iff :
    (r : ResolvedMentions) (raw : Text) (answer : Option (Text × EntityKind))
    → Says r raw answer
    → Any IsMisplaced r.place_mentions ↔ (answer ≡ none)
answer-IsMisplaced_iff r raw none h =
    (λ m. refl, λ e. subst (Any IsMisplaced) (sym h.0) (inl (unknown_not_place raw)))
answer-IsMisplaced_iff r raw (some (label, place)) h = (
  λ m. elim (subst (Any IsMisplaced) h.0 m) [
    | inl wrong ↦ absurd (place-not-IsMisplaced label wrong)
    | inr none_left ↦ absurd none_left
  ],
  λ e. absurd (ground arith),
)
answer-IsMisplaced_iff r raw (some (label, other)) h =
    (λ m. absurd (subst (Any IsMisplaced) h.0 m), λ e. absurd (ground arith))

surface-IsMisplaced_iff :
    (resolver : Resolver) (r : ResolvedMentions) (surface : Option Text)
    → SaysPlace resolver r surface
    → Any IsMisplaced r.place_mentions ↔ ((s : Text) × (surface ≡ some s) × (resolver s ≡ none))
surface-IsMisplaced_iff resolver r none h =
    (λ m. absurd (subst (Any IsMisplaced) h.0 m), λ found. absurd (ground (arith, found.1)))
surface-IsMisplaced_iff resolver r (some raw) h =
    let answer = answer-IsMisplaced_iff r raw (resolver raw) h in
    (λ m. (raw, refl, answer.0 m), λ (s, e, k). answer.1 (cc (e, k)))

-- A candidate with resolved place mentions and no place entity of its own is rejected for an invalid
-- place exactly when it has a surface of a place that the resolver does not know.
pub apply_gates-unknown_place_iff :
    (u : Unicode) (c : EventCandidate) (ctx : GateContext) (resolver : Resolver)
    (raw_place raw_object : Option Text) (participants : List (Text × ParticipantRole))
    → c.place_entity_id ≡ none
    → c.place_mentions
      ≡ (resolve_mentions c resolver raw_place raw_object participants).place_mentions
    → (reports (apply_gates u c ctx) invalid_place_kind ≡ true)
      ↔ ((s : Text) × (surface_of raw_place ≡ some s) × (resolver s ≡ none))
apply_gates-unknown_place_iff u c ctx resolver raw_place raw_object participants no_id same =
    let said = resolve_mentions-SaysPlace c resolver raw_place raw_object participants in
    let gates = apply_gates-reports_iff u c ctx invalid_place_kind in
    let misplaced =
      surface-IsMisplaced_iff resolver (resolved c resolver raw_place raw_object participants)
        (surface_of raw_place) said in
    (
      λ e. elim (gates.0 e) [
        | inl (has_id, kind) ↦ absurd (has_id no_id)
        | inr wrong ↦ misplaced.0 (subst (Any IsMisplaced) same wrong)
      ],
      λ found. gates.1 (inr (subst (Any IsMisplaced) (sym same) (misplaced.1 found))),
    )
