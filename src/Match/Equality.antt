-- ===== src/Match/Equality.antt =====
-- `EqualValue` (internal/match/equal.go) on normalised values is equality.
use tuplespace.Base.{
  ◌≡◌, ◌↔◌, refl, true, Text, text_eq_iff, text_eq_refl, int_eq_iff, ok, err, arith, Result-cases,
  inl, inr,
}
use tuplespace.Types.{Any, nil, string, bool, int64, normalize_value, normalize_int}
use tuplespace.Types.Normal.{IsNormal, normalize_value_of_IsNormal}
use tuplespace.Match.{any_eq, normalized_eq, equal_value}

-- A value that some type normalises to itself.
abbrev pub IsPlain : Any → Type 0
IsPlain (string s) = Unit
IsPlain (int64 z) = Unit
IsPlain (bool b) = Unit
IsPlain _ = ⊥

pub IsNormal-IsPlain : (t : Text) (v : Any) → IsNormal t v → IsPlain v
IsNormal-IsPlain t (string s) h = tt
IsNormal-IsPlain t (int64 z) h = tt
IsNormal-IsPlain t (bool b) h = tt
IsNormal-IsPlain t nil h = absurd h
IsNormal-IsPlain t _ h = absurd h

any_eq_sound : (v w : Any) → any_eq v w ≡ true → v ≡ w
unfolding any_eq
any_eq_sound (string s) (string t) h = ground (arith, text_eq_iff s t)
any_eq_sound (int64 m) (int64 n) h = ground (arith, int_eq_iff m n)
any_eq_sound (bool a) (bool b) h = ground arith
any_eq_sound _ _ h = cc

any_eq_refl : (v : Any) → IsPlain v → any_eq v v ≡ true
unfolding any_eq
any_eq_refl (string s) h = text_eq_refl s
any_eq_refl (int64 z) h = (int_eq_iff z z).1 refl
any_eq_refl (bool b) h = ground arith
any_eq_refl nil h = absurd h
any_eq_refl _ h = absurd h

-- A plain value is normalised to itself, or refused.
normalize_value_of_IsPlain : (t : Text) (v w : Any) → IsPlain v → normalize_value t v ≡ ok w → w ≡ v
unfolding normalize_value normalize_int
normalize_value_of_IsPlain t (string s) w p h = ground arith
normalize_value_of_IsPlain t (int64 z) w p h = ground arith
normalize_value_of_IsPlain t (bool b) w p h = ground arith
normalize_value_of_IsPlain t nil w p h = absurd p
normalize_value_of_IsPlain t _ w p h = absurd p

equal_value_sound :
    (t : Text) (v w : Any) → IsPlain v → IsNormal t w → equal_value t v w ≡ true → v ≡ w
unfolding equal_value
equal_value_sound t v w p n h = elim (Result-cases (normalize_value t v)) [
  | inl (u, e) ↦
      let same = normalize_value_of_IsPlain t v u p e in
      let back = normalize_value_of_IsNormal t w n in
      let h' : normalized_eq (ok u) (ok w) ≡ true = rw (e, back) at h in
      ground (arith, any_eq_sound u w)
  | inr (c, e) ↦ let h' : normalized_eq (err c) (normalize_value t w) ≡ true = rw e at h in cc
]

-- On a plain value and a value of the field's type the test is equality.
pub equal_value_iff :
    (t : Text) (v w : Any) → IsPlain v → IsNormal t w → (equal_value t v w ≡ true) ↔ (v ≡ w)
unfolding equal_value
equal_value_iff t v w p n = (
  equal_value_sound t v w p n,
  λ e. rw (e, normalize_value_of_IsNormal t w n) (any_eq_refl w (IsNormal-IsPlain t w n)),
)
