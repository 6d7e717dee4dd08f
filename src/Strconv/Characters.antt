-- ===== src/Strconv/Characters.antt =====
-- Characters that the text of an integer does not have.
use tuplespace.Base.{
  ℕ, ◌+◌, ◌*◌, ◌-◌, ◌≡◌, refl, inl, inr, false, some, [], ◌∷◌, Text, has_char, is_empty, ◌==◌, ℤ,
  arith, Bool-cases, Option-cases,
}
use tuplespace.Strconv.{parse_int, read_nat, read_digits, in_range, in_negative_range}

read_digits-has_char : (s : Text) (n m : ℕ) → read_digits s n ≡ some m → has_char b'/' s ≡ false
unfolding read_digits has_char
read_digits-has_char [] n m h = refl
read_digits-has_char (c ∷ s) n m h = ground (arith, read_digits-has_char s (n * 10 + (c - b'0')) m)

read_nat-has_char : (s : Text) (m : ℕ) → read_nat s ≡ some m → has_char b'/' s ≡ false
unfolding read_nat
read_nat-has_char [] m h = cc
read_nat-has_char (c ∷ s) m h = read_digits-has_char (c ∷ s) 0 m h

in_range_inv : (s : Text) (z : ℤ) → in_range (read_nat s) ≡ some z → has_char b'/' s ≡ false
in_range_inv s z h = elim (Option-cases (read_nat s)) [
  | inl e ↦ absurd (ground arith)
  | inr (m, e) ↦ read_nat-has_char s m e
]

in_negative_range_inv :
    (s : Text) (z : ℤ) → in_negative_range (read_nat s) ≡ some z → has_char b'/' s ≡ false
in_negative_range_inv s z h = elim (Option-cases (read_nat s)) [
  | inl e ↦ absurd (ground arith)
  | inr (m, e) ↦ read_nat-has_char s m e
]

-- What `ParseInt` accepts has no slash.
pub parse_int-has_char : (s : Text) (z : ℤ) → parse_int s ≡ some z → has_char b'/' s ≡ false
unfolding parse_int has_char
parse_int-has_char [] z h = refl
parse_int-has_char (c ∷ s) z h = elim (Bool-cases (c == b'-')) [
  | inl e ↦
      let seen : in_negative_range (read_nat s) ≡ some z = ground arith in
      ground (arith, in_negative_range_inv s z seen)
  | inr e ↦ elim (Bool-cases (c == b'+')) [
    | inl f ↦
        let seen : in_range (read_nat s) ≡ some z = ground arith in
        ground (arith, in_range_inv s z seen)
    | inr f ↦ in_range_inv (c ∷ s) z (ground arith)
  ]
]

pub parse_int_nonempty : (s : Text) (z : ℤ) → parse_int s ≡ some z → is_empty s ≡ false
unfolding parse_int
parse_int_nonempty [] z h = cc
parse_int_nonempty (c ∷ s) z h = refl
