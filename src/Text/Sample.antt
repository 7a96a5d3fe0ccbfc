-- ===== src/Text/Sample.antt =====
-- Character tables that know only ASCII: an instance of `Unicode` on which tests run.
use talaria_v.Base.{refl, ◌&&◌, leb}
use talaria_v.Text.{to_ascii_lowercase, is_ascii_alphabetic, is_ascii_alphanumeric}
use talaria_v.Text.Unicode.{Unicode}

abbrev pub ascii_tables : Unicode
ascii_tables = record {
  to_lowercase = to_ascii_lowercase;
  is_alphabetic = is_ascii_alphabetic;
  is_alphanumeric = is_ascii_alphanumeric;
  is_uppercase = λ c. leb b'A' c && leb c b'Z';
  to_lowercase_ascii = λ s h. refl;
  is_alphabetic_ascii = λ c h. refl;
}
