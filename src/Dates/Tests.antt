-- ===== src/Dates/Tests.antt =====
-- Surfaces of dates, and the theorem at a concrete input. The calendar is sampled by the year.
use talaria_v.Base.{◌≡◌, refl, none, some, ℤ, pos, negsuc, Option, wrap32}
use talaria_v.Text.{codes, to_ascii_lowercase}
use talaria_v.Text.Sample.{ascii_tables}
use talaria_v.Time.{exact}
use talaria_v.Dates.{parse_day_month_year, parse_typed_time}
use talaria_v.Dates.Typed.{IsReadable, parse_typed_time-IsReadable}

abbrev june : ℤ → Option ℤ
june y = some y

day_read :
    parse_typed_time june ascii_tables (some (codes " 18 June, 1815. "))
    ≡ exact (pos 1815) (some 6) (some 18) (some (codes "18 June, 1815"))
unfolding parse_typed_time parse_day_month_year codes to_ascii_lowercase
day_read = refl

ancient_read :
    parse_typed_time june ascii_tables (some (codes "31 BC"))
    ≡ exact (negsuc 30) none none (some (codes "31 BC"))
unfolding parse_typed_time parse_day_month_year codes to_ascii_lowercase wrap32
ancient_read = refl

-- The number before the month need not stand beside it.
distant_number :
    parse_day_month_year ascii_tables (codes "12 ships sailed in May 1798")
    ≡ some (pos 1798, 5, 12, codes "12 may 1798")
unfolding parse_day_month_year codes to_ascii_lowercase
distant_number = refl

parse_typed_time-IsReadable_example :
    IsReadable (parse_typed_time june ascii_tables (some (codes "1815-06-18")))
parse_typed_time-IsReadable_example =
    parse_typed_time-IsReadable june ascii_tables (some (codes "1815-06-18"))
