-- ===== src/Text/Unicode.antt =====
-- The parts of Rust's text library that rest on the Unicode character tables: full lower-casing and
-- the letter classes. They are taken as parameters, with the laws that hold on ASCII.
use talaria_v.Base.{ℕ, ◌<◌, ◌≡◌, Bool, All}
use talaria_v.Text.{Text, to_ascii_lowercase, is_ascii_alphabetic}

pub record Unicode : Type 0 where
  -- `str::to_lowercase`
  pub to_lowercase : Text → Text
  -- `char::is_alphabetic`, `char::is_alphanumeric`, `char::is_uppercase`
  pub is_alphabetic : ℕ → Bool
  pub is_alphanumeric : ℕ → Bool
  pub is_uppercase : ℕ → Bool
  pub to_lowercase_ascii : (s : Text) → All (λ c. c < 128) s → to_lowercase s ≡ to_ascii_lowercase s
  pub is_alphabetic_ascii : (c : ℕ) → c < 128 → is_alphabetic c ≡ is_ascii_alphabetic c
