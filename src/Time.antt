-- ===== src/Time.antt =====
-- Typed time: `TypedTime` of crates/talaria-quality/src/model.rs with its projections, and the
-- projections of crates/talaria-quality/src/time_typed.rs to JSON and to the column `start_time`.
pub mod Key
pub mod Projection
mod Tests
use talaria_v.Base.{
  ℕ, ◌+◌, ◌≤◌, ◌≡◌, refl, Bool, not, ◌&&◌, List, [], ◌∷◌, ◌++◌, Option, none, some, ◌>>=◌, arith, ℤ,
  pos, ◌==◌, if◌then◌else◌, is_some, unwrap_or, String,
}
use talaria_v.Text.{Text, codes}
use talaria_v.Text.Decimal.{show_nat, show_int, show_02}

pub data TypedTime : Type 0 where
  -- year, month, day, surface
  exact : ℤ → Option ℕ → Option ℕ → Option Text → TypedTime
  -- first year, last year, surface
  range : ℤ → ℤ → Option Text → TypedTime
  approx : ℤ → Option Text → TypedTime
  unknown : Option Text → TypedTime

unfoldable pub year_for_gates : TypedTime → Option ℤ
year_for_gates (exact year month day surface) = some year
year_for_gates (range first last surface) = some first
year_for_gates (approx year surface) = some year
year_for_gates (unknown surface) = none

unfoldable pub canonical_key : TypedTime → Text
unfolding codes
canonical_key (exact year month day surface) =
    codes "exact:"
    ++ (show_int year ++ b':' ∷ (show_nat (unwrap_or month 0) ++ b':' ∷ show_nat (unwrap_or day 0)))
canonical_key (range first last surface) =
    codes "range:" ++ (show_int first ++ b':' ∷ show_int last)
canonical_key (approx year surface) = codes "approx:" ++ show_int year
canonical_key (unknown surface) = codes "unknown"

-- The values of the column `date_precision`.
pub data Precision : Type 0 where
  by_day by_month by_year as_range approximate undated : Precision

abbrev given : Option ℕ → Bool
given none = Bool.false
given (some n) = not (n == 0)

-- `date_precision`: an absent or zero day or month does not count.
unfoldable pub date_precision : TypedTime → Precision
date_precision (exact y m d surface) =
    if given d then by_day else if given m then by_month else by_year
date_precision (range first last surface) = as_range
date_precision (approx y surface) = approximate
date_precision (unknown surface) = undated

-- `format_exact_start`
unfoldable pub format_exact_start : ℤ → Option ℕ → Option ℕ → Text
unfolding show_int show_02
format_exact_start year (some m) (some d) = show_int year ++ b'-' ∷ (show_02 m ++ b'-' ∷ show_02 d)
format_exact_start year (some m) none = show_int year ++ b'-' ∷ show_02 m
format_exact_start year none d = show_int year

pub data Kind : Type 0 where
  exact_kind range_kind approx_kind unknown_kind : Kind

-- The object of `time_to_json`; a `null` or absent field is `none`. The calendar is always
-- "gregorian".
pub record TimeJson : Type 0 where
  pub kind : Kind
  pub start : Option Text
  pub end : Option Text
  pub precision : Option Precision
  pub surface : Option Text

unfoldable pub time_to_json : TypedTime → TimeJson
unfolding format_exact_start show_int
time_to_json (exact y m d surface) = record {
  kind = exact_kind;
  start = some (format_exact_start y m d);
  end = none;
  precision = some (if is_some d then by_day else if is_some m then by_month else by_year);
  surface = surface;
}
time_to_json (range first last surface) = record {
  kind = range_kind;
  start = some (show_int first);
  end = some (show_int last);
  precision = some by_year;
  surface = surface;
}
time_to_json (approx y surface) = record {
  kind = approx_kind;
  start = some (show_int y);
  end = none;
  precision = some by_year;
  surface = surface;
}
time_to_json (unknown surface) = record {
  kind = unknown_kind;
  start = none;
  end = none;
  precision = none;
  surface = surface;
}

-- `chrono`, as far as the projection uses it: `from_ymd_opt` refuses a date that is not in the
-- calendar, and the first of January exists in each year of its range.
pub record Calendar : Type 1 where
  pub Date : Type 0
  pub from_ymd_opt : ℤ → ℕ → ℕ → Option Date
  pub year_of : Date → ℤ
  pub month_of : Date → ℕ
  pub day_of : Date → ℕ
  pub from_ymd_opt_fields :
      (y : ℤ) (m d : ℕ) (date : Date)
      → from_ymd_opt y m d ≡ some date
      → (year_of date ≡ y) × (month_of date ≡ m) × (day_of date ≡ d)

-- `start_time_from_typed`; midnight exists on each date, so the time of day is left out.
module _ (c : Calendar) where
  unfoldable pub start_time_from_typed : TypedTime → Option c.Date
  start_time_from_typed (exact y m d surface) = c.from_ymd_opt y (unwrap_or m 1) (unwrap_or d 1)
  start_time_from_typed (range first last surface) = c.from_ymd_opt first 1 1
  start_time_from_typed (approx y surface) = c.from_ymd_opt y 1 1
  start_time_from_typed (unknown surface) = none

key_example : canonical_key (exact (pos 1815) (some 3) none none) ≡ codes "exact:1815:3:0"
unfolding canonical_key codes show_nat show_int
key_example = refl

start_example : format_exact_start (pos 1805) (some 3) (some 14) ≡ codes "1805-03-14"
unfolding format_exact_start codes
start_example = refl
