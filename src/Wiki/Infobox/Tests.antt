-- ===== src/Wiki/Infobox/Tests.antt =====
-- Runs on infoboxes.
use talaria_v.Base.{◌≡◌, refl, some, none, ◌∷◌, [], ◌++◌, List, arith, true, false}
use talaria_v.Text.{
  codes, to_ascii_lowercase, is_ascii_alphabetic, byte_len, is_whitespace, starts_with, trim,
  trim_end_matches, contains,
}
use talaria_v.Text.Sample.{ascii_tables}
use talaria_v.Wiki.Infobox.{InfoboxField, parse_template_fields}
use talaria_v.Wiki.Infobox.Nested.{is_nested}
use talaria_v.Wiki.Infobox.RoundTrip.{print_fields, parse_template_fields-print, IsField}
use talaria_v.Wiki.Infobox.Facts.{infobox_life_facts}

ada_facts :
    infobox_life_facts ascii_tables (
      codes
        "x {{Infobox scientist\n| birth_date = {{birth date|1815|12|10}}\n| birth_place = [[London]]\n| death_date = {{death date and age|1852|11|27|1815|12|10}}\n| death_place = [[Marylebone]], London\n| residence = [[B]], [[Ab]]\n}} y")
    ≡ some (record {
      birth_place = some (codes "London");
      death_place = some (codes "Marylebone");
      birth_year = some (codes "1815");
      death_year = some (codes "1852");
      residences = codes "Ab" ∷ [];
    })
unfolding infobox_life_facts to_ascii_lowercase
ada_facts = refl

plain_facts :
    infobox_life_facts ascii_tables
      (codes "{{Infobox writer| birth_date = 9 April 1821| birth_place = Paris, France}}")
    ≡ some (record {
      birth_place = some (codes "Paris");
      death_place = none;
      birth_year = some (codes "1821");
      death_year = none;
      residences = [];
    })
unfolding infobox_life_facts to_ascii_lowercase is_ascii_alphabetic
plain_facts = refl

abbrev two_fields : List InfoboxField
two_fields =
    record { key = codes "name"; value = codes "Ada" }
    ∷ record { key = codes "born"; value = codes "{{d|10|12}} [[L|M]]" }
    ∷ []

name_IsField : IsField ascii_tables (record { key = codes "name"; value = codes "Ada" })
unfolding codes is_nested is_whitespace trim_end_matches byte_len starts_with to_ascii_lowercase
name_IsField = record {
  key_nested = refl;
  value_nested = refl;
  key_tight = (refl, refl);
  value_tight = (refl, refl);
  key_present = refl;
  key_no_equals = (omega arith, (omega arith, (omega arith, (omega arith, tt))));
  key_short = refl;
  key_no_infobox = refl;
}

born_IsField :
    IsField ascii_tables (record { key = codes "born"; value = codes "{{d|10|12}} [[L|M]]" })
unfolding codes is_nested is_whitespace trim_end_matches byte_len starts_with to_ascii_lowercase
born_IsField = record {
  key_nested = refl;
  value_nested = refl;
  key_tight = (refl, refl);
  value_tight = (refl, refl);
  key_present = refl;
  key_no_equals = (omega arith, (omega arith, (omega arith, (omega arith, tt))));
  key_short = refl;
  key_no_infobox = refl;
}

name_nested : is_nested 0 0 (codes "Infobox x") ≡ true
unfolding codes is_nested
name_nested = refl

name_no_field : contains (trim (codes "Infobox x")) (codes "=") ≡ false
unfolding codes trim contains
name_no_field = refl

parse_template_fields-print_example :
    parse_template_fields ascii_tables (codes "Infobox x" ++ print_fields two_fields) ≡ two_fields
parse_template_fields-print_example =
    parse_template_fields-print ascii_tables (codes "Infobox x") two_fields name_nested
      name_no_field (name_IsField, (born_IsField, tt))
