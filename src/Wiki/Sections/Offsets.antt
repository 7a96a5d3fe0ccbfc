-- ===== src/Wiki/Sections/Offsets.antt =====
-- Offsets in bytes at the joints of a text.
use talaria_v.Base.{
  ℕ, zero, suc, ◌+◌, ◌-◌, ◌≡◌, refl, ◌∙◌, ap, true, [], ◌∷◌, ◌++◌, some, leb, length, arith, ◌<◌,
}
use mathlib.Core.List.{append_assoc}
use talaria_v.Text.{Text, byte_len, utf8_width}
use talaria_v.Text.Bytes.{is_char_boundary, take_bytes, drop_bytes}
use talaria_v.Wiki.{get_from, get_range}
use talaria_v.Wiki.Sections.{char_offset, as_i32}

utf8_width_pos : (c : ℕ) → 0 < utf8_width c
unfolding utf8_width
utf8_width_pos c = ground arith

pub byte_len-append : (p q : Text) → byte_len (p ++ q) ≡ byte_len p + byte_len q
unfolding byte_len
byte_len-append [] q = omega arith
byte_len-append (c ∷ p) q = omega (arith, byte_len-append p q)

is_char_boundary-at :
    (c : ℕ) (s : Text) (n k : ℕ)
    → k ≡ utf8_width c + n
    → is_char_boundary s n ≡ true
    → is_char_boundary (c ∷ s) k ≡ true
unfolding is_char_boundary
is_char_boundary-at c s n zero e h = refl
is_char_boundary-at c s n (suc k) e h =
    let same : suc k - utf8_width c ≡ n = omega arith in ground (arith, h, same)

drop_bytes-cons :
    (c : ℕ) (s : Text) (n : ℕ) → drop_bytes (utf8_width c + n) (c ∷ s) ≡ drop_bytes n s
unfolding drop_bytes
drop_bytes-cons c s n = ground arith

take_bytes-cons :
    (c : ℕ) (s : Text) (n : ℕ) → take_bytes (utf8_width c + n) (c ∷ s) ≡ c ∷ take_bytes n s
unfolding take_bytes
take_bytes-cons c s n = ground arith

is_char_boundary-zero : (q : Text) → is_char_boundary q 0 ≡ true
unfolding is_char_boundary
is_char_boundary-zero [] = refl
is_char_boundary-zero (c ∷ q) = refl

drop_bytes-zero : (q : Text) → drop_bytes 0 q ≡ q
unfolding drop_bytes utf8_width
drop_bytes-zero [] = refl
drop_bytes-zero (c ∷ q) = ground arith

take_bytes-zero : (q : Text) → take_bytes 0 q ≡ []
unfolding take_bytes utf8_width
take_bytes-zero [] = refl
take_bytes-zero (c ∷ q) = ground arith

pub is_char_boundary-append : (p q : Text) → is_char_boundary (p ++ q) (byte_len p) ≡ true
unfolding byte_len
is_char_boundary-append [] q = is_char_boundary-zero q
is_char_boundary-append (c ∷ p) q =
    is_char_boundary-at c (p ++ q) (byte_len p) (utf8_width c + byte_len p) refl
      (is_char_boundary-append p q)

pub drop_bytes-append : (p q : Text) → drop_bytes (byte_len p) (p ++ q) ≡ q
unfolding byte_len
drop_bytes-append [] q = drop_bytes-zero q
drop_bytes-append (c ∷ p) q = drop_bytes-cons c (p ++ q) (byte_len p) ∙ drop_bytes-append p q

pub take_bytes-append : (p q : Text) → take_bytes (byte_len p) (p ++ q) ≡ p
unfolding byte_len
take_bytes-append [] q = take_bytes-zero q
take_bytes-append (c ∷ p) q =
    take_bytes-cons c (p ++ q) (byte_len p) ∙ ap (◌∷◌ c) (take_bytes-append p q)

pub get_from-append : (p q : Text) → get_from (p ++ q) (byte_len p) ≡ some q
unfolding get_from
get_from-append p q = rw (is_char_boundary-append p q, drop_bytes-append p q) refl

boundary-middle : (p m q : Text) → is_char_boundary (p ++ (m ++ q)) (byte_len p + byte_len m) ≡ true
boundary-middle p m q =
    rw (← append_assoc p m q, ← byte_len-append p m) (is_char_boundary-append (p ++ m) q)

leb-sum : (a b : ℕ) → leb a (a + b) ≡ true
leb-sum a b = ground arith

sum-minus : (a b : ℕ) → (a + b) - a ≡ b
sum-minus a b = omega arith

-- The bytes between the ends of the first and of the second of three parts are the second.
pub get_range-middle :
    (p m q : Text) → get_range (p ++ (m ++ q)) (byte_len p) (byte_len p + byte_len m) ≡ some m
unfolding get_range
get_range-middle p m q =
    rw
      (
        is_char_boundary-append p (m ++ q),
        boundary-middle p m q,
        leb-sum (byte_len p) (byte_len m),
        sum-minus (byte_len p) (byte_len m),
        drop_bytes-append p (m ++ q),
        take_bytes-append m q,
      )
      refl

leb-zero : (n : ℕ) → leb 0 n ≡ true
leb-zero n = ground arith

minus_zero : (n : ℕ) → n - 0 ≡ n
minus_zero n = omega arith

get_range-front : (p q : Text) → get_range (p ++ q) 0 (byte_len p) ≡ some p
unfolding get_range
get_range-front p q =
    rw
      (
        is_char_boundary-zero (p ++ q),
        is_char_boundary-append p q,
        leb-zero (byte_len p),
        minus_zero (byte_len p),
        drop_bytes-zero (p ++ q),
        take_bytes-append p q,
      )
      refl

-- The offset in characters of a joint.
pub char_offset-append : (p q : Text) → char_offset (p ++ q) (byte_len p) ≡ as_i32 (length p)
unfolding char_offset
char_offset-append p q = rw (get_range-front p q) refl
