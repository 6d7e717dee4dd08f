-- ===== src/Strconv/RoundTrip.antt =====
-- `ParseInt` reads back what was written for an integer, and its results are 64-bit integers.
use native.Mathlib.Nat.{pow-suc}
use tuplespace.Base.{
  ℕ, zero, suc, ◌+◌, ◌*◌, ◌/◌, ◌%◌, ◌^◌, ◌≤◌, ◌<◌, ◌≡◌, ◌∙◌, inl, inr, Option, none, some, [], ◌∷◌,
  Text, arith, Bool-cases, ltb, ℤ, pos, negsuc, max_int64, InInt64,
}
use tuplespace.Strconv.{
  read_digits, read_nat, parse_int, digits, format_nat, format_int, in_range, in_negative_range,
}

read_digit :
    (d n : ℕ) (out : Text)
    → d < 10
    → read_digits ((b'0' + d) ∷ out) n ≡ read_digits out (n * 10 + d)
unfolding read_digits
read_digit d n out h = ground arith

read_last : (n : ℕ) (out : Text) → read_digits ((b'0' + n % 10) ∷ out) (n / 10) ≡ read_digits out n
read_last n out =
    read_digit (n % 10) (n / 10) out (omega arith)
    ∙ (let e : n / 10 * 10 + n % 10 ≡ n = omega arith in rw e)

small_quotient : (f n : ℕ) → n < 10 ^ suc f → n / 10 < 10 ^ f
small_quotient f n h = let e : 10 ^ suc f ≡ 10 ^ f * 10 = pow-suc 10 f in omega (arith, e)

read_digits-digits :
    (f n : ℕ) (out : Text) → n < 10 ^ f → read_digits (digits f n out) 0 ≡ read_digits out n
unfolding digits
read_digits-digits zero n out h = let e : n ≡ 0 = omega arith in rw e
read_digits-digits (suc f) n out h = elim (Bool-cases (ltb n 10)) [
  | inl small ↦
      rw small (read_digit n 0 out (ground arith) ∙ (let e : 0 * 10 + n ≡ n = omega arith in rw e))
  | inr big ↦ rw big (
      read_digits-digits f (n / 10) ((b'0' + n % 10) ∷ out) (small_quotient f n h)
      ∙ read_last n out)
]

-- The text of a number starts with a digit.
abbrev StartsWithDigit : Text → Type 0
StartsWithDigit t = (c : ℕ) × (s : Text) × (t ≡ c ∷ s) × (b'0' ≤ c)

digits-StartsWithDigit : (f n : ℕ) (out : Text) → StartsWithDigit (digits (suc f) n out)
unfolding digits
digits-StartsWithDigit zero n out = elim (Bool-cases (ltb n 10)) [
  | inl small ↦ (b'0' + n, out, rw small, omega arith)
  | inr big ↦ (b'0' + n % 10, out, rw big, omega arith)
]
digits-StartsWithDigit (suc f) n out = elim (Bool-cases (ltb n 10)) [
  | inl small ↦ (b'0' + n, out, rw small, omega arith)
  | inr big ↦
      let (c, s, e, h) = digits-StartsWithDigit f (n / 10) ((b'0' + n % 10) ∷ out) in
      (c, s, rw big e, h)
]

read_nat-format_nat : (n : ℕ) → n < 10 ^ 20 → read_nat (format_nat n) ≡ some n
unfolding read_nat format_nat
read_nat-format_nat n h =
    let (c, s, e, _) = digits-StartsWithDigit 19 n [] in
    let back = read_digits-digits 20 n [] h in rw e (rw e at back)

parse_int_of_digit :
    (c : ℕ) (s : Text) (n : ℕ)
    → b'0' ≤ c
    → read_nat (c ∷ s) ≡ some n
    → n ≤ max_int64
    → parse_int (c ∷ s) ≡ some (pos n)
unfolding parse_int
parse_int_of_digit c s n digit e h = ground arith

module _ (n : ℕ) (h : n ≤ max_int64) where
  parse_int-format_nat : parse_int (format_nat n) ≡ some (pos n)
  unfolding format_nat
  parse_int-format_nat =
      let (c, s, e, digit) = digits-StartsWithDigit 19 n [] in
      let back = read_nat-format_nat n (omega arith) in
      rw e (parse_int_of_digit c s n digit (rw e at back) h)

  parse_int-format_negative : parse_int (b'-' ∷ format_nat (suc n)) ≡ some (negsuc n)
  unfolding parse_int
  parse_int-format_negative = rw (read_nat-format_nat (suc n) (omega arith)) (ground arith)

-- A 64-bit integer is read back from its decimal text.
pub parse_int-format_int : (z : ℤ) → InInt64 z → parse_int (format_int z) ≡ some z
unfolding format_int
parse_int-format_int (pos n) h = parse_int-format_nat n h
parse_int-format_int (negsuc n) h = parse_int-format_negative n h

in_range-InInt64 : (o : Option ℕ) (z : ℤ) → in_range o ≡ some z → InInt64 z
in_range-InInt64 none z e = cc
in_range-InInt64 (some n) z e = ground arith

in_negative_range-InInt64 : (o : Option ℕ) (z : ℤ) → in_negative_range o ≡ some z → InInt64 z
in_negative_range-InInt64 none z e = cc
in_negative_range-InInt64 (some zero) z e = ground arith
in_negative_range-InInt64 (some (suc n)) z e = ground arith

-- Whatever the text, an accepted number fits 64 bits.
pub parse_int-InInt64 : (s : Text) (z : ℤ) → parse_int s ≡ some z → InInt64 z
unfolding parse_int
parse_int-InInt64 [] z e = cc
parse_int-InInt64 (c ∷ s) z e = ground (
  arith,
  in_negative_range-InInt64 (read_nat s) z,
  in_range-InInt64 (read_nat s) z,
  in_range-InInt64 (read_nat (c ∷ s)) z,
)
