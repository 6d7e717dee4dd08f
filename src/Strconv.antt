-- ===== src/Strconv.antt =====
-- Go's `strconv` as far as the program calls it: here `ParseInt(s, 10, 64)`, and the decimal text
-- that `encoding/json` writes for an integer; in a child, `Unquote`.
pub mod RoundTrip
pub mod Quoted
pub mod Characters
use tuplespace.Base.{
  ℕ, zero, suc, ◌+◌, ◌-◌, ◌*◌, ◌/◌, ◌%◌, ◌≡◌, refl, true, false, ◌||◌, Option, none, some, [], ◌∷◌,
  Text, codes, ltb, leb, ◌==◌, if◌then◌else◌, ℤ, pos, negsuc, max_int64,
}

-- The number that the digits spell behind `n`; `none` at another character.
read_digits : Text → ℕ → Option ℕ
read_digits [] n = some n
read_digits (c ∷ s) n =
    if ltb c b'0' || ltb b'9' c then none else read_digits s (n * 10 + (c - b'0'))

read_nat : Text → Option ℕ
unfolding read_digits
read_nat [] = none
read_nat (c ∷ s) = read_digits (c ∷ s) 0

abbrev in_range : Option ℕ → Option ℤ
in_range none = none
in_range (some n) = if leb n max_int64 then some (pos n) else none

-- 2^63 itself has a negative only.
abbrev in_negative_range : Option ℕ → Option ℤ
in_negative_range none = none
in_negative_range (some zero) = some (pos 0)
in_negative_range (some (suc n)) = if leb n max_int64 then some (negsuc n) else none

unfoldable pub parse_int : Text → Option ℤ
unfolding read_nat
parse_int [] = none
parse_int (c ∷ s) =
    if c == b'-'
    then in_negative_range (read_nat s)
    else if c == b'+'
    then in_range (read_nat s)
    else in_range (read_nat (c ∷ s))

-- The digits of `n` in front of `out`. Twenty rounds are enough below 10^20.
digits : ℕ → ℕ → Text → Text
digits zero n out = out
digits (suc f) n out =
    let rest = digits f (n / 10) ((b'0' + n % 10) ∷ out) in
    if ltb n 10 then (b'0' + n) ∷ out else rest

abbrev pub format_rounds : ℕ
format_rounds = 20

unfoldable pub format_nat : ℕ → Text
unfolding digits
format_nat n = digits format_rounds n []

unfoldable pub format_int : ℤ → Text
unfolding format_nat
format_int (pos n) = format_nat n
format_int (negsuc n) = b'-' ∷ format_nat (suc n)

parse_int_tests :
    (parse_int (codes "007") ≡ some (pos 7))
    × (parse_int (codes "-9223372036854775808") ≡ some (negsuc max_int64))
    × (parse_int (codes "9223372036854775808") ≡ none)
    × (parse_int (codes "1x") ≡ none)
    × (parse_int (codes "-") ≡ none)
unfolding parse_int
parse_int_tests = (refl, refl, refl, refl, refl)

format_int_test : format_int (negsuc 119) ≡ codes "-120"
unfolding format_int
format_int_test = refl
