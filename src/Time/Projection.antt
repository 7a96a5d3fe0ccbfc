-- ===== src/Time/Projection.antt =====
-- The two readings of a date's precision, and the projection to `start_time`.
use talaria_v.Base.{ℕ, ◌≡◌, refl, ◌≢◌, Option, none, some, arith, unwrap_or}
use talaria_v.Time.{
  TypedTime, exact, range, approx, unknown, year_for_gates, Precision, as_range, approximate,
  undated, date_precision, time_to_json, Calendar, start_time_from_typed,
}

-- Month and day, where they are given, are positive.
abbrev pub IsDated : TypedTime → Type 0
IsDated (exact y m d surface) = (m ≢ some 0) × (d ≢ some 0)
IsDated _ = Unit

-- What the column says of a time whose JSON has this precision: the kind comes first.
abbrev pub column_of : TypedTime → Option Precision → Precision
column_of (exact y m d surface) p = unwrap_or p undated
column_of (range first last surface) p = as_range
column_of (approx y surface) p = approximate
column_of (unknown surface) p = undated

-- Where no given month or day is zero, the column `date_precision` is the projection of the JSON:
-- the JSON's precision for an exact date, and the kind otherwise.
pub date_precision-time_to_json :
    (t : TypedTime) → IsDated t → date_precision t ≡ column_of t (time_to_json t).precision
unfolding date_precision time_to_json
date_precision-time_to_json (exact y none none surface) h = refl
date_precision-time_to_json (exact y m d surface) h = ground arith
date_precision-time_to_json (range first last surface) h = refl
date_precision-time_to_json (approx y surface) h = refl
date_precision-time_to_json (unknown surface) h = refl

abbrev pub month_or_january : TypedTime → ℕ
month_or_january (exact y m d surface) = unwrap_or m 1
month_or_january _ = 1

abbrev pub day_or_first : TypedTime → ℕ
day_or_first (exact y m d surface) = unwrap_or d 1
day_or_first _ = 1

module _ (c : Calendar) where
  -- A start date has the year that the gates read, the given month or January, and the given day or
  -- the first.
  pub start_time-fields :
      (t : TypedTime) {date : c.Date}
      → start_time_from_typed c t ≡ some date
      → (year_for_gates t ≡ some (c.year_of date))
        × (c.month_of date ≡ month_or_january t)
        × (c.day_of date ≡ day_or_first t)
  unfolding start_time_from_typed year_for_gates
  start_time-fields (exact y m d surface) {date} h =
      ground (arith, c.from_ymd_opt_fields y (unwrap_or m 1) (unwrap_or d 1) date h)
  start_time-fields (range first last surface) {date} h =
      ground (arith, c.from_ymd_opt_fields first 1 1 date h)
  start_time-fields (approx y surface) {date} h = ground (arith, c.from_ymd_opt_fields y 1 1 date h)
  start_time-fields (unknown surface) h = cc
