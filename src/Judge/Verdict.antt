-- ===== src/Judge/Verdict.antt =====
-- The verdict on a claim: `judge_candidate` of crates/talaria-judge/src/rules.rs. Scores are counted in
-- hundredths, in which every constant of the source is whole; the sums of the source are the nearest
-- `f64` up to rounding. `start` is the date that stands for a year, as in Dates.
pub mod Accepted
use talaria_v.Base.{
  ℕ, ◌+◌, ◌-◌, Bool, true, false, not, ◌&&◌, ◌||◌, List, [], ◌∷◌, ◌++◌, Option, none, some, ℤ, leb,
  ltb, if◌then◌else◌, is_empty, unwrap_or, map,
}
use Prim.Native.Nat.{min, max}
use talaria_v.Text.{Text, codes, is, trim, byte_len, join}
use talaria_v.Text.Decimal.{show_int}
use talaria_v.Text.Unicode.{Unicode}
use talaria_v.Explorer.{trimmed}
use talaria_v.Dates.{ParsedTime, parse_time_surface}
use talaria_v.Intuition.Json.{Json, null, string, number, object, entry, end}
use talaria_v.Judge.Place.{ParsedPlace, parse_place_surface, map_eligible}
use talaria_v.Judge.Classes.{Classified, classify}
use talaria_v.Judge.Epistemic.{infer_epistemic_status}

pub record CandidateInput : Type 0 where
  pub person_surface : Text
  pub time_surface : Option Text
  pub place_surface : Option Text
  pub verb_pivot : Option Text
  pub sentence_text : Text

pub data JudgeLabel : Type 0 where
  accept reject : JudgeLabel

pub record JudgeVerdict (Date : Type 0) : Type 0 where
  pub label : JudgeLabel
  pub score : ℕ
  pub reason : Text
  pub event_type : Text
  pub epistemic_status : Text
  pub title : Text
  pub summary : Text
  pub start_time : Option Date
  pub time_json : Json
  pub place_label : Option Text
  pub lat : Option ℤ
  pub lon : Option ℤ
  pub map_is_eligible : Bool
  pub confidence : ℕ

-- The reason that is pushed for a status.
unfoldable pub epistemic_reason : Text → Text
unfolding is codes
epistemic_reason epistemic =
    if is epistemic "rumor"
    then codes "epistemic_rumor_cue"
    else if is epistemic "theory"
    then codes "epistemic_theory_cue"
    else if is epistemic "uncertain"
    then codes "epistemic_uncertain"
    else if is epistemic "established"
    then codes "epistemic_strong_pattern"
    else codes "epistemic_attested_source"

-- The score after the status: the `match` with `max(0.55)` and `min(1.0)`.
unfoldable pub epistemic_score : Text → ℕ → ℕ
unfolding is
epistemic_score epistemic score =
    if is epistemic "rumor" || is epistemic "theory"
    then max (score - 5) 55
    else if is epistemic "uncertain"
    then max (score - 8) 55
    else if is epistemic "established"
    then min (score + 5) 100
    else score

-- What the category adds: points and a reason.
unfoldable pub category_points : Text → Text → ℕ × List Text
unfolding is codes
category_points family verb =
    if not (is family "other")
    then (15, codes "category_classified" ∷ [])
    else if not (is_empty verb)
    then (8, codes "life_event_fallback" ∷ [])
    else (0, [])

-- `to_json` of a parsed time.
unfoldable pub parsed_time_json : Text → Text → ℤ → Json
unfolding codes
parsed_time_json surface precision year = object (
    entry (codes "surface") (string surface)
      (entry (codes "precision") (string precision) (entry (codes "year") (number year) end)))

module _ {Date : Type 0} where
  unfoldable pub rejected : CandidateInput → ℕ → Text → JudgeVerdict Date
  unfolding codes
  rejected input score reason = record {
    label = reject;
    score = score;
    reason = reason;
    event_type = codes "life_event";
    epistemic_status = codes "uncertain";
    title = input.person_surface;
    summary = input.sentence_text;
    start_time = none;
    time_json = null;
    place_label = input.place_surface;
    lat = none;
    lon = none;
    map_is_eligible = false;
    confidence = score;
  }

-- The score before the status: 35, 25 for the time and 15 for the place, with what is added.
unfoldable pub score_of : CandidateInput → ParsedPlace → Classified → Text → ℕ
unfolding map_eligible category_points trim byte_len
score_of input place classified verb =
    35
    + 25
    + 15
    + (if map_eligible place then 10 else 0)
    + (category_points classified.family verb).0
    + (if leb 3 (byte_len (trim input.person_surface)) then 5 else 0)

unfoldable pub reasons_of : ParsedPlace → Classified → Text → Text → List Text
unfolding map_eligible category_points epistemic_reason codes
reasons_of place classified verb epistemic =
    codes "time_parsed"
      ∷ codes "place_present"
      ∷ (if map_eligible place then codes "place_geocoded" ∷ [] else [])
    ++ ((category_points classified.family verb).1 ++ epistemic_reason epistemic ∷ [])

module _ {Date : Type 0} (june_15 : ℤ → Option Date) (u : Unicode) where
  unfoldable pub title_of : CandidateInput → Classified → ParsedPlace → ParsedTime june_15 → Text
  unfolding trim codes
  title_of input classified place time =
      trim input.person_surface
      ++ (b' ' ∷ classified.verb_label
          ++ (codes " in " ++ (place.label ++ (codes " (" ++ (time.surface ++ codes ")")))))

  -- What is left once time and place are read.
  unfoldable pub scored : CandidateInput → ParsedPlace → ParsedTime june_15 → JudgeVerdict Date
  unfolding score_of reasons_of title_of classify infer_epistemic_status epistemic_score join
      parsed_time_json map_eligible trim rejected codes
  scored input place time =
      let verb = u.to_lowercase (trim (unwrap_or input.verb_pivot [])) in
      let sentence = u.to_lowercase input.sentence_text in
      let classified = classify u verb sentence input.person_surface in
      let epistemic = infer_epistemic_status sentence classified.family in
      let confidence = min (epistemic_score epistemic (score_of input place classified verb)) 100 in
      if ltb confidence 55
      then rejected input confidence (codes "score below threshold")
      else record {
        label = accept;
        score = confidence;
        reason = join (reasons_of place classified verb epistemic) (codes ",");
        event_type = classified.event_type;
        epistemic_status = epistemic;
        title = title_of input classified place time;
        summary = trim input.sentence_text;
        start_time = some time.start;
        time_json = parsed_time_json time.surface time.precision time.year;
        place_label = some place.label;
        lat = place.lat;
        lon = place.lon;
        map_is_eligible = map_eligible place;
        confidence = confidence;
      }

  abbrev with_time : CandidateInput → Text → Option (ParsedTime june_15) → JudgeVerdict Date
  with_time input place_surface none = rejected input 20 (codes "unparseable time_surface")
  with_time input place_surface (some time) =
      scored input (parse_place_surface u place_surface) time

  abbrev with_place_surface : CandidateInput → Text → Option Text → JudgeVerdict Date
  with_place_surface input time_surface none = rejected input 10 (codes "missing place_surface")
  with_place_surface input time_surface (some place_surface) =
      with_time input place_surface (parse_time_surface june_15 time_surface)

  abbrev with_time_surface : CandidateInput → Option Text → JudgeVerdict Date
  with_time_surface input none = rejected input 10 (codes "missing time_surface")
  with_time_surface input (some time_surface) =
      with_place_surface input time_surface (trimmed input.place_surface)

  unfoldable pub judge_candidate : CandidateInput → JudgeVerdict Date
  judge_candidate input = with_time_surface input (trimmed input.time_surface)
