-- ===== src/Text/Decimal/Laws.antt =====
-- Printed numbers: they consist of digits and determine the number.
use talaria_v.Base.{
  ℕ, zero, suc, ◌/◌, ◌≤◌, ◌<◌, ◌≡◌, refl, sym, ◌∙◌, ap, [], ◌∷◌, ◌++◌, arith, All, All-append, ltb,
  Bool-cases, inl, inr,
}
use talaria_v.Text.{Text}
use talaria_v.Text.Decimal.{show_fuel, show_nat, value}

abbrev pub IsDigit : ℕ → Type 0
IsDigit c = (b'0' ≤ c) × (c ≤ b'9')

value-append : (s t : Text) (n : ℕ) → value n (s ++ t) ≡ value (value n s) t
unfolding value
value-append [] t n = refl
value-append (c ∷ s) t n = value-append s t _

show_fuel-IsDigit : (f n : ℕ) → All IsDigit (show_fuel f n)
unfolding show_fuel
show_fuel-IsDigit zero n = tt
show_fuel-IsDigit (suc f) n = elim (Bool-cases (ltb n 10)) [
  | inl small ↦ rw small (ground arith)
  | inr large ↦
      rw large
        (All-append IsDigit (show_fuel f (n / 10)) _ (show_fuel-IsDigit f (n / 10)) (omega arith))
]

value-show_fuel : (f n : ℕ) → n < f → value 0 (show_fuel f n) ≡ n
unfolding show_fuel value
value-show_fuel zero n h = elim h [ ]
value-show_fuel (suc f) n h = elim (Bool-cases (ltb n 10)) [
  | inl small ↦ rw small (omega arith)
  | inr large ↦
      rw (large, value-append (show_fuel f (n / 10)))
        (rw (value-show_fuel f (n / 10) (ground arith)) (omega arith))
]

-- A printed number holds only digits.
pub show_nat-IsDigit : (n : ℕ) → All IsDigit (show_nat n)
unfolding show_nat
show_nat-IsDigit n = show_fuel-IsDigit (suc n) n

-- Reading the digits gives the number back.
pub value-show_nat : (n : ℕ) → value 0 (show_nat n) ≡ n
unfolding show_nat
value-show_nat n = value-show_fuel (suc n) n (omega arith)

pub show_nat-injective : (m n : ℕ) → show_nat m ≡ show_nat n → m ≡ n
show_nat-injective m n e = sym (value-show_nat m) ∙ ap (value 0) e ∙ value-show_nat n
