-- ===== src/Intuition/Facts.antt =====
-- Facts of debates: crates/talaria-intuition/src/fact.rs.
use talaria_v.Base.{
  Bool, false, ◌&&◌, List, [], ◌∷◌, ◌++◌, Option, none, some, ◌==◌, all, is_empty, if◌then◌else◌,
  ◌||◌, unwrap_or,
}
use talaria_v.Text.{Text, codes, is, trim, split, byte_len, is_ascii_digit}
use talaria_v.Text.Unicode.{Unicode}
use talaria_v.Intuition.Slug.{Transliteration}
use talaria_v.Intuition.Json.{Json, string, object, entry, end, fingerprint_hex, json_option}
use talaria_v.Intuition.Plan.{
  ConflictGroup, SoftClaimInput, conflict_question_fragment, conflict_question, claim_question,
  debate_id_of,
}

pub record DebateText : Type 0 where
  pub text : Text

pub record AboutEvent : Type 0 where
  pub canonical_event_id : Text
  pub title : Text
  pub event_type : Text
  pub time_surface : Text

pub record DebateFact : Type 0 where
  pub version : Text
  pub debate_id : Text
  pub kind : Text
  pub question : DebateText
  pub proposition : DebateText
  pub about_event : Option AboutEvent

abbrev event_id_of : Option AboutEvent → Option Text
event_id_of none = none
event_id_of (some e) = some e.canonical_event_id

unfoldable pub fact_fingerprint : (Json → Text) → DebateFact → Text
unfolding fingerprint_hex codes
fact_fingerprint digest fact = fingerprint_hex digest (
    object (
      entry (codes "version") (string fact.version) (
        entry (codes "kind") (string fact.kind) (
          entry (codes "question") (string (fact.question.text)) (
            entry (codes "proposition") (string (fact.proposition.text)) (
              entry (codes "canonical_event_id") (json_option (event_id_of fact.about_event))
                end))))))

unfoldable pub kind_term : Text → Text
unfolding trim is codes
kind_term kind =
    let k = trim kind in if is_empty k || is k "place_conflict" then codes "uncategorized" else k

abbrev pub event_term : Option AboutEvent → Text → Text
event_term none other = other
event_term (some ev) other = let t = trim ev.event_type in if is_empty t then other else t

unfoldable pub category_term : DebateFact → Text
unfolding kind_term trim
category_term fact = event_term fact.about_event (kind_term fact.kind)

abbrev pub digits : Text → Bool
digits = all is_ascii_digit

-- The tests on the parts between the hyphens: exactly three.
unfoldable pub is_date_parts : List Text → Bool
unfolding byte_len is_ascii_digit
is_date_parts (y ∷ m ∷ d ∷ []) =
    byte_len y == 4 && byte_len m == 2 && byte_len d == 2 && digits y && digits m && digits d
is_date_parts parts = false

unfoldable pub start_date_field : Text → Option Text
unfolding trim split is_date_parts
start_date_field time_surface =
    let s = trim time_surface in if is_date_parts (split (λ c. c == b'-') s) then some s else none

unfoldable pub event_atom_name : Text → Text
unfolding codes
event_atom_name canonical_event_id = codes "canonical-event:" ++ canonical_event_id

unfoldable pub event_same_as : Text → Text
unfolding codes
event_same_as canonical_event_id = codes "talaria://canonical-event/" ++ canonical_event_id

abbrev conflict_event : ConflictGroup → Option Text → Option AboutEvent
conflict_event group none = none
conflict_event group (some id) = some record {
  canonical_event_id = id;
  title = unwrap_or group.event_title (group.subject_label ++ b' ' ∷ group.event_type);
  event_type = group.event_type;
  time_surface = group.time_key;
}

abbrev claim_event : SoftClaimInput → Option Text → Option AboutEvent
claim_event claim none = none
claim_event claim (some id) = some record {
  canonical_event_id = id;
  title = unwrap_or claim.event_title [];
  event_type = unwrap_or claim.event_type [];
  time_surface = unwrap_or claim.time_surface [];
}

module _ (u : Unicode) (t : Transliteration) where
  unfoldable pub fact_from_place_conflict : ConflictGroup → Text → DebateFact
  unfolding conflict_question_fragment conflict_question debate_id_of codes
  fact_from_place_conflict group place = record {
    version = codes "talaria.intuition_canon.v2";
    debate_id = debate_id_of u t (conflict_question_fragment group) (codes "at-" ++ place);
    kind = codes "place_conflict";
    question = record { text = conflict_question group };
    proposition = record { text = place };
    about_event = conflict_event group group.event_id;
  }

  unfoldable pub fact_from_soft_claim : SoftClaimInput → DebateFact
  unfolding claim_question debate_id_of codes
  fact_from_soft_claim claim = record {
    version = codes "talaria.intuition_canon.v2";
    debate_id =
        debate_id_of u t (codes "about-" ++ claim.subject_label) (codes "claim-" ++ claim.claim_id);
    kind = claim.claim_kind;
    question = record { text = claim_question claim };
    proposition = record { text = claim.text };
    about_event = claim_event claim claim.event_id;
  }
