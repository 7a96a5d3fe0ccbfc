-- ===== src/Lifecycle/Labels.antt =====
-- Labels derived from typed fields: crates/talaria-quality/src/projections.rs.
use talaria_v.Base.{Bool, true, false, ◌&&◌, [], ◌++◌, Option, none, some, is_some}
use talaria_v.Text.{Text, codes}
use talaria_v.Text.Decimal.{show_int}
use talaria_v.Time.{TypedTime, exact, range, approx, unknown}
use talaria_v.Gates.Candidate.{EventCandidate}

pub record ProjectionEvent : Type 0 where
  pub subject_label : Text
  pub event_type : Text
  pub predicate : Text
  pub time : TypedTime
  pub place_label : Option Text
  pub map_eligible : Bool

unfoldable pub time_label : TypedTime → Text
unfolding show_int codes
time_label (exact year month day surface) = show_int year
time_label (approx year surface) = show_int year
time_label (range first last surface) = show_int first ++ (codes "–" ++ show_int last)
time_label (unknown surface) = codes "?"

abbrev at_place : Option Text → Text
at_place none = []
at_place (some place) = codes " @ " ++ place

unfoldable pub display_label : ProjectionEvent → Text
unfolding time_label codes
display_label event =
    event.subject_label
    ++ (codes " — "
        ++ (event.event_type
            ++ (codes " ("
                ++ (time_label event.time ++ (codes ")" ++ at_place event.place_label)))))

abbrev is_known : TypedTime → Bool
is_known (unknown surface) = false
is_known (exact year month day surface) = true
is_known (approx year surface) = true
is_known (range first last surface) = true

unfoldable pub from_candidate : EventCandidate → Text → ProjectionEvent
from_candidate candidate subject_label = record {
  subject_label = subject_label;
  event_type = candidate.event_type;
  predicate = candidate.predicate;
  time = candidate.time;
  place_label = candidate.place_label;
  map_eligible = is_some candidate.place_label && is_known candidate.time;
}
