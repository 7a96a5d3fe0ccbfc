-- ===== src/PlaceQuality/Tests.antt =====
-- Tests on names of places.
use talaria_v.Base.{◌≡◌, refl, true, false}
use talaria_v.Text.{codes, to_ascii_lowercase, is_ascii_alphabetic, is_ascii_digit}
use talaria_v.Text.Sample.{ascii_tables}
use talaria_v.PlaceQuality.Lists.{
  is_month, is_stop_word, is_demonym, is_abstract_noun, is_organization, is_treaty_pattern,
  has_media_pattern, is_geo_prefix,
}
use talaria_v.PlaceQuality.{is_plausible_place_label}

city_test : is_plausible_place_label ascii_tables (codes " New York ") ≡ true
unfolding is_plausible_place_label codes to_ascii_lowercase is_month is_stop_word
    is_ascii_alphabetic is_ascii_digit is_demonym is_abstract_noun is_organization is_treaty_pattern
    has_media_pattern is_geo_prefix
city_test = refl

-- The pattern " live" of broadcasts stands in the name of this city.
east_liverpool_test : is_plausible_place_label ascii_tables (codes "East Liverpool") ≡ false
unfolding is_plausible_place_label codes to_ascii_lowercase is_month is_stop_word
    is_ascii_alphabetic is_ascii_digit is_demonym is_abstract_noun is_organization is_treaty_pattern
    has_media_pattern is_geo_prefix
east_liverpool_test = refl
