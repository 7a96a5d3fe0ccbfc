-- ===== src/Resolve/Tests.antt =====
-- Resolutions, and the theorems at a concrete input: a place that the gazetteer does not know.
use talaria_v.Base.{◌≡◌, refl, ◌↔◌, true, [], ◌∷◌, none, some, pos, false}
use talaria_v.Text.{Text, codes, to_ascii_lowercase}
use talaria_v.Text.Sample.{ascii_tables}
use talaria_v.Time.{exact}
use talaria_v.Gates.Candidate.{EventCandidate, pending, unknown}
use talaria_v.Gates.Codes.{invalid_place_kind}
use talaria_v.Gates.{GateContext, apply_gates}
use talaria_v.Gates.Reasons.{reports}
use talaria_v.Resolve.{mention, surface_of, gazetteer, gazetteer_place_in_text, resolve_mentions}
use talaria_v.Resolve.Kinds.{SaysPlace, resolve_mentions-SaysPlace, apply_gates-unknown_place_iff}

-- The longest place of the text wins, and only as a whole word.
found :
    gazetteer_place_in_text ascii_tables (codes "From Romeo in Elba to Saint Helena, by Jena.")
    ≡ some (codes "saint helena")
unfolding gazetteer_place_in_text codes to_ascii_lowercase
found = refl

abbrev battle : EventCandidate
battle = record {
  id = 1;
  snapshot_id = 0;
  fragment_id = 0;
  clause_index = pos 0;
  subject_surface = codes "Napoleon";
  subject_entity_id = some 7;
  event_type = codes "battle";
  predicate = codes "occurs";
  time = exact (pos 1805) none none none;
  place_mentions = mention (codes "Atlantis") unknown none ∷ [];
  object_mentions = [];
  participant_mentions = [];
  place_entity_id = none;
  place_label = some (codes "Atlantis");
  evidence_ptrs = [];
  extractor_version = codes "v1";
  fingerprint = codes "f";
  status = pending;
  rejection_codes = [];
}

abbrev empty_context : GateContext
empty_context = record {
  subject_birth_year = none;
  subject_death_year = none;
  has_active_birth = false;
  has_active_death = false;
  fingerprint_exists = false;
  cross_clause_join_detected = false;
  place_entity_kind = none;
  subject_confirmed_alive = false;
}

same_mentions :
    battle.place_mentions
    ≡ (resolve_mentions battle
        (gazetteer ascii_tables)
        (some (codes " Atlantis "))
        none
        []).place_mentions
unfolding resolve_mentions gazetteer codes to_ascii_lowercase
same_mentions = refl

resolve_mentions-SaysPlace_example :
    SaysPlace
      (gazetteer ascii_tables)
      (resolve_mentions battle (gazetteer ascii_tables) (some (codes "Paris")) none [])
      (surface_of (some (codes "Paris")))
resolve_mentions-SaysPlace_example =
    resolve_mentions-SaysPlace battle (gazetteer ascii_tables) (some (codes "Paris")) none []

apply_gates-unknown_place_iff_example :
    (reports (apply_gates ascii_tables battle empty_context) invalid_place_kind ≡ true) ↔ (
      (s : Text) × (surface_of (some (codes " Atlantis ")) ≡ some s)
      × (gazetteer ascii_tables s ≡ none))
apply_gates-unknown_place_iff_example =
    apply_gates-unknown_place_iff ascii_tables battle empty_context (gazetteer ascii_tables)
      (some (codes " Atlantis ")) none [] refl same_mentions
