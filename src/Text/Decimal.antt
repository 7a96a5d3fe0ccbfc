-- ===== src/Text/Decimal.antt =====
-- Decimal numbers as texts: `to_string` and `format!("{n:02}")` of the integers that the program
-- prints, and `parse::<i32>()` and `parse::<u32>()`.
pub mod Laws
use talaria_v.Base.{
  ℕ, zero, suc, ◌+◌, ◌-◌, ◌*◌, ◌/◌, ◌%◌, ◌^◌, ◌≤◌, Bool, not, ◌&&◌, ◌||◌, List, [], ◌∷◌, ◌++◌,
  Option, none, some, ◌≡◌, refl, arith, ltb, leb, ◌==◌, if◌then◌else◌, all, is_empty, length, ℤ,
  pos, negsuc, sub_ℕ,
}
use talaria_v.Text.{Text, codes, is_ascii_digit}

-- One round for each digit; the fuel n + 1 is more than the digits of n.
show_fuel : ℕ → ℕ → Text
show_fuel zero n = []
show_fuel (suc f) n =
    let rest = show_fuel f (n / 10) in
    if ltb n 10 then (b'0' + n) ∷ [] else rest ++ (b'0' + n % 10) ∷ []

-- `n.to_string()` of an unsigned number.
unfoldable pub show_nat : ℕ → Text
unfolding show_fuel
show_nat n = show_fuel (suc n) n

-- `n.to_string()` of a signed number.
unfoldable pub show_int : ℤ → Text
unfolding show_nat
show_int (pos n) = show_nat n
show_int (negsuc n) = b'-' ∷ show_nat (suc n)

-- `format!("{n:02}")`: a leading zero below ten.
unfoldable pub show_02 : ℕ → Text
unfolding show_nat
show_02 n = if ltb n 10 then b'0' ∷ show_nat n else show_nat n

-- The number that digits spell behind `n`.
unfoldable pub value : ℕ → Text → ℕ
value n [] = n
value n (c ∷ s) = value (n * 10 + (c - b'0')) s

-- `parse::<u32>()`: an optional `+`, then one or more digits, within the range.
parse_digits : ℕ → Text → Option ℕ
unfolding value is_ascii_digit
parse_digits most s =
    if is_empty s || not (all is_ascii_digit s)
    then none
    else if leb (value 0 s) most
    then some (value 0 s)
    else none

unfoldable pub parse_u32 : Text → Option ℕ
unfolding parse_digits
parse_u32 [] = none
parse_u32 (c ∷ s) =
    if c == b'+' then parse_digits (2 ^ 32 - 1) s else parse_digits (2 ^ 32 - 1) (c ∷ s)

abbrev positive : Option ℕ → Option ℤ
positive none = none
positive (some n) = some (pos n)

abbrev negative : Option ℕ → Option ℤ
negative none = none
negative (some n) = some (sub_ℕ 0 n)

-- `parse::<i32>()`: an optional `+` or `-`.
unfoldable pub parse_i32 : Text → Option ℤ
unfolding parse_digits
parse_i32 [] = none
parse_i32 (c ∷ s) =
    if c == b'+'
    then positive (parse_digits (2 ^ 31 - 1) s)
    else if c == b'-'
    then negative (parse_digits (2 ^ 31) s)
    else positive (parse_digits (2 ^ 31 - 1) (c ∷ s))

shown : show_nat 1815 ≡ codes "1815"
unfolding show_nat codes
shown = refl

shown_zero : show_nat 0 ≡ codes "0"
unfolding show_nat codes
shown_zero = refl

parsed : parse_u32 (codes "+08") ≡ some 8
unfolding parse_u32 codes
parsed = refl
