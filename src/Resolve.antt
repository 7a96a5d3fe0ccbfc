-- ===== src/Resolve.antt =====
-- Typed resolution of mentions: crates/talaria-quality/src/resolve.rs. The trait `MentionResolver` is a
-- function from a surface to a label with its kind; the one of the source is `gazetteer`.
pub mod Kinds
mod Tests
use talaria_v.Base.{
  ℕ, ltb, Bool, true, false, not, ◌&&◌, ◌||◌, List, [], ◌∷◌, ◌++◌, Option, none, some, any,
  if◌then◌else◌, first, drop, length, is_empty, map,
}
use talaria_v.Text.{
  Text, codes, text_eq, is_one_of, trim, starts_with, is_ascii_alphanumeric, byte_len,
}
use talaria_v.Text.Unicode.{Unicode}
use talaria_v.Gates.Candidate.{
  EntityKind, person, place, unknown, is_place, is_person, ParticipantRole, spouse, Mention,
  EventCandidate,
}

-- `MentionResolver::resolve_surface`
abbrev pub Resolver : Type 0
Resolver = Text → Option (Text × EntityKind)

-- `GAZETTEER_PLACES`
unfoldable pub gazetteer_places : List Text
unfolding codes
gazetteer_places =
    codes "paris"
    ∷ codes "london"
    ∷ codes "ajaccio"
    ∷ codes "waterloo"
    ∷ codes "leipzig"
    ∷ codes "austerlitz"
    ∷ codes "elba"
    ∷ codes "saint helena"
    ∷ codes "st helena"
    ∷ codes "corsica"
    ∷ codes "moscow"
    ∷ codes "vienna"
    ∷ codes "rome"
    ∷ codes "milan"
    ∷ codes "toulon"
    ∷ codes "fontainebleau"
    ∷ codes "malmaison"
    ∷ codes "brienne"
    ∷ codes "egypt"
    ∷ codes "cairo"
    ∷ codes "jena"
    ∷ codes "wagram"
    ∷ codes "borodino"
    ∷ codes "smolensk"
    ∷ codes "tilsit"
    ∷ codes "notre-dame"
    ∷ codes "notre dame"
    ∷ codes "amiens"
    ∷ codes "venice"
    ∷ codes "venise"
    ∷ codes "milan"
    ∷ codes "marseille"
    ∷ codes "nohant"
    ∷ codes "varsovie"
    ∷ codes "warsaw"
    ∷ codes "london"
    ∷ []

-- No letter or digit of ASCII stands there. A byte of a longer character is none either.
abbrev ends_word : Option ℕ → Bool
ends_word none = true
ends_word (some c) = not (is_ascii_alphanumeric c)

-- The first occurrence of the needle decides, with the character before it.
unfoldable pub hit_from : Option ℕ → Text → Text → Bool
unfolding starts_with is_ascii_alphanumeric
hit_from before [] needle = starts_with [] needle && ends_word before
hit_from before (c ∷ s) needle =
    let later = hit_from (some c) s needle in
    if starts_with (c ∷ s) needle
    then ends_word before && ends_word (first (drop (length needle) (c ∷ s)))
    else later

unfoldable pub word_hit : Text → Text → Bool
unfolding hit_from
word_hit lower needle = hit_from none lower needle

-- The later place is better where it is longer.
unfoldable pub better : Option Text → Text → Option Text
unfolding byte_len
better none p = some p
better (some b) p = if ltb (byte_len b) (byte_len p) then some p else some b

unfoldable pub longest_hit : Text → Option Text → List Text → Option Text
unfolding word_hit better
longest_hit lower best [] = best
longest_hit lower best (p ∷ ps) =
    longest_hit lower (if word_hit lower p then better best p else best) ps

abbrev pub mention : Text → EntityKind → Option ParticipantRole → Mention
mention surface kind role = record {
  surface = surface;
  entity_id = none;
  kind = some kind;
  role = role;
}

pub record ResolvedMentions : Type 0 where
  pub subject_kind : Option EntityKind
  pub place_label : Option Text
  pub place_kind : Option EntityKind
  pub invalid_place_attempt : Bool
  pub place_mentions : List Mention
  pub object_mentions : List Mention
  pub participant_mentions : List Mention

-- `ResolvedMentions::default()`
abbrev pub no_mentions : ResolvedMentions
no_mentions = record {
  subject_kind = none;
  place_label = none;
  place_kind = none;
  invalid_place_attempt = false;
  place_mentions = [];
  object_mentions = [];
  participant_mentions = [];
}

-- `raw.map(str::trim).filter(|s| !s.is_empty())`
unfoldable pub surface_of : Option Text → Option Text
unfolding trim
surface_of none = none
surface_of (some s) = if is_empty (trim s) then none else some (trim s)

-- A person goes to the participants, as a spouse, and anything else to the objects.
unfoldable pub push_object : ResolvedMentions → Text → EntityKind → ResolvedMentions
unfolding is_person
push_object out label kind =
    if is_person kind
    then record out {
      participant_mentions = out.participant_mentions ++ mention label person (some spouse) ∷ [];
    }
    else record out { object_mentions = out.object_mentions ++ mention label kind none ∷ [] }

-- What the answer of the resolver makes of the surface of a place.
unfoldable pub place_answer :
    ResolvedMentions → Text → Option (Text × EntityKind) → ResolvedMentions
unfolding is_place push_object
place_answer out raw none = record out {
  place_mentions = out.place_mentions ++ mention raw unknown none ∷ [];
  place_label = some raw;
  place_kind = some unknown;
}
place_answer out raw (some (label, kind)) =
    if is_place kind
    then record out {
      place_label = some label;
      place_kind = some place;
      place_mentions = out.place_mentions ++ mention label place none ∷ [];
    }
    else push_object (record out { invalid_place_attempt = true }) label kind

-- `resolve_surface(s).unwrap_or_else(|| (s.to_string(), EntityKind::Unknown))`
unfoldable pub resolve_or_unknown : Resolver → Text → Text × EntityKind
resolve_or_unknown resolver s = elim (resolver s) [ none ↦ (s, unknown) | some found ↦ found ]

abbrev pub second : Option (Text × EntityKind) → Option EntityKind
second none = none
second (some (label, kind)) = some kind

unfoldable pub with_place : Resolver → ResolvedMentions → Option Text → ResolvedMentions
unfolding place_answer
with_place resolver out none = out
with_place resolver out (some raw) = place_answer out raw (resolver raw)

unfoldable pub with_object : Resolver → ResolvedMentions → Option Text → ResolvedMentions
unfolding push_object resolve_or_unknown
with_object resolver out none = out
with_object resolver out (some obj) =
    push_object out (resolve_or_unknown resolver obj).0 (resolve_or_unknown resolver obj).1

unfoldable pub participant_of : Resolver → Text × ParticipantRole → Mention
unfolding resolve_or_unknown
participant_of resolver (surface, role) =
    mention (resolve_or_unknown resolver surface).0 (resolve_or_unknown resolver surface).1
      (some role)

unfoldable pub with_participants :
    Resolver → ResolvedMentions → List (Text × ParticipantRole) → ResolvedMentions
unfolding participant_of
with_participants resolver out raw = record out {
  participant_mentions = out.participant_mentions ++ map (participant_of resolver) raw;
}

unfoldable pub resolve_mentions :
    EventCandidate
    → Resolver
    → Option Text
    → Option Text
    → List (Text × ParticipantRole)
    → ResolvedMentions
unfolding with_place with_object with_participants surface_of
resolve_mentions candidate resolver raw_place raw_object raw_participants =
    let named = record no_mentions { subject_kind = second (resolver candidate.subject_surface) } in
    with_participants resolver
      (with_object resolver (with_place resolver named (surface_of raw_place))
        (surface_of raw_object))
      raw_participants

module _ (u : Unicode) where
  unfoldable pub gazetteer_place_in_text : Text → Option Text
  unfolding longest_hit gazetteer_places
  gazetteer_place_in_text text = longest_hit (u.to_lowercase text) none gazetteer_places

  -- `GazetteerResolver`
  unfoldable pub gazetteer : Resolver
  unfolding is_one_of text_eq trim gazetteer_places
  gazetteer surface =
      let key = u.to_lowercase (trim surface) in
      if is_one_of key (
        "joséphine" ∷ "josephine" ∷ "joséphine de beauharnais" ∷ "josephine de beauharnais"
        ∷ "marie louise" ∷ "marie-louise" ∷ "napoleon" ∷ "napoleon bonaparte" ∷ "napoléon"
        ∷ "wellington" ∷ "alexander i" ∷ [])
      then some (trim surface, person)
      else if any (λ p. text_eq p key) gazetteer_places
      then some (trim surface, place)
      else none
