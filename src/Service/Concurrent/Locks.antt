-- ===== src/Service/Concurrent/Locks.antt =====
-- The rows that a candidate query with SKIP LOCKED gives, and the rows that are left.
use tuplespace.Base.{
  ℕ, zero, suc, ◌≡◌, inl, inr, refl, ap, Bool, true, false, ◌||◌, not, some, List, [], ◌∷◌, ◌++◌,
  Text, keep, take, ℤ, pos, negsuc, int_eq, int_eq_iff, arith, Bool-cases, Option-cases,
  some-injective, if◌then◌else◌,
}
use tuplespace.Types.{Tuple, Template}
use tuplespace.Match.{Bindings, match}
use tuplespace.Store.{StoredTuple}
use tuplespace.Relational.Select.{take_rows}
use tuplespace.Space.{Contents, put}
use tuplespace.Service.{first_match}
use tuplespace.Service.Once.{ids, has_id}
use tuplespace.Service.Concurrent.{Consumer, holders, times_id}

has_id-take :
    (id : ℤ) (n : ℕ) (es : Contents)
    → has_id id (ids (take n es)) ≡ true
    → has_id id (ids es) ≡ true
has_id-take id zero es h = cc
has_id-take id (suc n) [] h = cc
has_id-take id (suc n) (e ∷ es) h = ground (arith, has_id-take id n es)

pub has_id-take_rows :
    (id n : ℤ) (es : Contents) → has_id id (ids (take_rows n es)) ≡ true → has_id id (ids es) ≡ true
has_id-take_rows id (pos n) es h = has_id-take id n es h
has_id-take_rows id (negsuc n) es h = cc

-- A kept row was there, and passed the test of its number.
pub has_id-keep :
    (id : ℤ) (p : StoredTuple → Bool) (q : ℤ → Bool) (es : Contents)
    → ((e : StoredTuple) → p e ≡ true → q e.id ≡ true)
    → has_id id (ids (keep p es)) ≡ true
    → (has_id id (ids es) ≡ true) × (q id ≡ true)
has_id-keep id p q [] h k = cc
has_id-keep id p q (e ∷ es) h k = elim (Bool-cases (p e)) [
  | inr x ↦ let (there, passed) = has_id-keep id p q es h (rw x at k) in (ground arith, passed)
  | inl x ↦ elim (Bool-cases (int_eq e.id id)) [
    | inl same ↦
        let equal : e.id ≡ id = (int_eq_iff e.id id).0 same in (ground arith, rw (← equal) (h e x))
    | inr other ↦
        let (there, passed) = has_id-keep id p q es h (rw (x, other) at k) in (ground arith, passed)
  ]
]

pub has_id-first_match :
    (t : Template) (cs : Contents) (e : StoredTuple) (b : Bindings)
    → first_match t cs ≡ some (e, b)
    → has_id e.id (ids cs) ≡ true
unfolding first_match
has_id-first_match t [] e b h = cc
has_id-first_match t (c ∷ cs) e b h = elim (Option-cases (match t c.tuple)) [
  | inl m ↦ let later = has_id-first_match t cs e b (rw (m, first_match) at h) in ground arith
  | inr (d, m) ↦
      let same : some (c, d) ≡ some (e, b) = rw (m, first_match) at h in
      let c-e : c ≡ e = ap (λ p. p.0) (some-injective (c, d) (e, b) same) in
      let here : int_eq c.id c.id ≡ true = (int_eq_iff c.id c.id).1 refl in
      rw (← c-e) (rw here refl)
]

abbrev pub left : ℤ → Contents → Contents
left id = keep (λ d. not (int_eq d.id id))

pub has_id-left_same : (id : ℤ) (es : Contents) → has_id id (ids (left id es)) ≡ false
has_id-left_same id [] = refl
has_id-left_same id (e ∷ es) = elim (Bool-cases (int_eq e.id id)) [
  | inl h ↦ rw h (has_id-left_same id es)
  | inr h ↦ rw h (rw h (has_id-left_same id es))
]

pub has_id-left_other :
    (id k : ℤ) (es : Contents)
    → int_eq k id ≡ false
    → has_id id (ids (left k es)) ≡ has_id id (ids es)
has_id-left_other id k [] h = refl
has_id-left_other id k (e ∷ es) h = elim (Bool-cases (int_eq e.id k)) [
  | inl x ↦
      let equal : e.id ≡ k = (int_eq_iff e.id k).0 x in
      let other : int_eq e.id id ≡ false = rw equal h in
      rw x (rw other (has_id-left_other id k es h))
  | inr x ↦ rw x (ap (λ r. int_eq e.id id || r) (has_id-left_other id k es h))
]

pub has_id-put :
    (id k : ℤ) (space : Text) (u : Tuple) (es : Contents)
    → has_id id (ids (put k space u es)) ≡ (has_id id (ids es) || int_eq k id)
has_id-put id k space u [] = ground arith
has_id-put id k space u (e ∷ es) = ground (arith, has_id-put id k space u es)

pub holders-split :
    (id : ℤ) (before after : List Consumer) (c : Consumer)
    → holders id (before ++ c ∷ after) ≡ (
        if has_id id c.locked
        then suc (holders id (before ++ after))
        else holders id (before ++ after))
holders-split id [] after c = refl
holders-split id (d ∷ before) after c = ground (arith, holders-split id before after c)

pub times_id-has_id : (id : ℤ) (js : List ℤ) → has_id id js ≡ false → times_id id js ≡ 0
times_id-has_id id [] h = refl
times_id-has_id id (j ∷ js) h = ground (arith, times_id-has_id id js)
