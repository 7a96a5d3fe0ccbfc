-- ===== src/Time/Tests.antt =====
-- The theorem on canonical keys at a concrete input, and a calendar.
use talaria_v.Base.{ℕ, ◌≡◌, ◌↔◌, Option, none, some, ℤ, pos, arith}
use talaria_v.Text.{codes}
use talaria_v.Time.{TypedTime, exact, canonical_key, Calendar}
use talaria_v.Time.Key.{SameMoment, canonical_key_iff}

abbrev march_1815 : TypedTime
march_1815 = exact (pos 1815) (some 3) none none

abbrev march_1815_cited : TypedTime
march_1815_cited = exact (pos 1815) (some 3) (some 0) (some (codes "March 1815"))

fields_of :
    (y : ℤ) (m d : ℕ) (date : ℤ × ℕ × ℕ)
    → ◌≡◌ {A = Option (ℤ × ℕ × ℕ)} (some (y, m, d)) (some date)
    → (date.0 ≡ y) × (date.1 ≡ m) × (date.2 ≡ d)
fields_of y m d date h = ground arith

-- A calendar in which every date exists.
abbrev triples : Calendar
triples = record {
  Date = ℤ × ℕ × ℕ;
  from_ymd_opt = λ y m d. some (y, m, d);
  year_of = λ date. date.0;
  month_of = λ date. date.1;
  day_of = λ date. date.2;
  from_ymd_opt_fields = λ y m d date h. fields_of y m d date h;
}

canonical_key_iff_example :
    (canonical_key march_1815 ≡ canonical_key march_1815_cited)
    ↔ SameMoment march_1815 march_1815_cited
canonical_key_iff_example = canonical_key_iff march_1815 march_1815_cited
