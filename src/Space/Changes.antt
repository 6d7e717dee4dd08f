-- ===== src/Space/Changes.antt =====
-- What writing and taking change in a tuple space.
use tuplespace.Base.{
  suc, ◌+◌, ◌≡◌, inl, inr, refl, sym, ap, Bool, true, false, Option, none, some, some-injective,
  text_eq_iff, List, [], ◌∷◌, ◌++◌, Text, text_eq, ℤ, int_eq, int_eq_iff, not, keep, length,
  length-append, arith, Bool-cases,
}
use tuplespace.Types.{Tuple, Template}
use tuplespace.Match.{Bindings, match}
use tuplespace.Store.{StoredTuple}
use tuplespace.Space.{
  Contents, IsNew, Distinct, oldest, found_in, put, take_away, answer, Event, wrote, looked, May,
  Runs, writes, takes,
}

put-IsNew :
    (k id : ℤ) (e : StoredTuple) (s : Contents)
    → int_eq e.id k ≡ false
    → IsNew k s
    → IsNew k (s ++ e ∷ [])
put-IsNew k id e [] h n = (h, tt)
put-IsNew k id e (d ∷ s) h (n, ns) = (n, put-IsNew k id e s h ns)

flip : (a b : ℤ) → int_eq a b ≡ false → int_eq b a ≡ false
flip a b h = elim (Bool-cases (int_eq b a)) [
  | inl e ↦
      let same : b ≡ a = (int_eq_iff b a).0 e in
      let other : int_eq a b ≡ true = (int_eq_iff a b).1 (sym same) in absurd (ground arith)
  | inr e ↦ e
]

pub put-Distinct :
    (id : ℤ) (space : Text) (u : Tuple) (s : Contents)
    → IsNew id s
    → Distinct s
    → Distinct (put id space u s)
put-Distinct id space u [] n d = (tt, tt)
put-Distinct id space u (e ∷ s) (n, ns) (d, ds) = (
  put-IsNew e.id id (record { id = id; space = space; tuple = u }) s (flip e.id id n) d,
  put-Distinct id space u s ns ds,
)

keep-IsNew : (k id : ℤ) (s : Contents) → IsNew k s → IsNew k (keep (λ d. not (int_eq d.id id)) s)
keep-IsNew k id [] n = tt
keep-IsNew k id (e ∷ s) (n, ns) = elim (Bool-cases (int_eq e.id id)) [
  | inl h ↦ rw h (keep-IsNew k id s ns)
  | inr h ↦ rw h (n, keep-IsNew k id s ns)
]

keep-Distinct : (id : ℤ) (s : Contents) → Distinct s → Distinct (keep (λ d. not (int_eq d.id id)) s)
keep-Distinct id [] d = tt
keep-Distinct id (e ∷ s) (d, ds) = elim (Bool-cases (int_eq e.id id)) [
  | inl h ↦ rw h (keep-Distinct id s ds)
  | inr h ↦ rw h (keep-IsNew e.id id s d, keep-Distinct id s ds)
]

pub take_away-Distinct :
    (o : Option (StoredTuple × Bindings)) (s : Contents) → Distinct s → Distinct (take_away o s)
take_away-Distinct none s d = d
take_away-Distinct (some (e, b)) s d = keep-Distinct e.id s d

all_kept : (id : ℤ) (s : Contents) → IsNew id s → keep (λ d. not (int_eq d.id id)) s ≡ s
all_kept id [] n = refl
all_kept id (e ∷ s) (n, ns) = rw n (ap (◌∷◌ e) (all_kept id s ns))

-- A tuple that stands in the contents.
abbrev pub Has : StoredTuple → Contents → Type 0
Has e s = (before after : Contents) × (s ≡ before ++ e ∷ after)

later_Has : (d e : StoredTuple) (s : Contents) → Has e s → Has e (d ∷ s)
later_Has d e s (before, after, split) = (d ∷ before, after, ap (◌∷◌ d) split)

-- A match of the template in the space, that stands in the contents.
abbrev pub IsMatch : Text → Template → Contents → StoredTuple × Bindings → Type 0
IsMatch space t s (e, b) = Has e s × (e.space ≡ space) × (match t e.tuple ≡ some b)

found_in-IsMatch :
    (space : Text) (t : Template) (d : StoredTuple) (s : Contents) (here : Bool)
    (o : Option Bindings) (later : Option (StoredTuple × Bindings)) (r : StoredTuple × Bindings)
    → text_eq d.space space ≡ here
    → match t d.tuple ≡ o
    → (later ≡ some r → IsMatch space t s r)
    → found_in d here o later ≡ some r
    → IsMatch space t (d ∷ s) r
found_in-IsMatch space t d s true (some c) later r at fits k h =
    rw (← some-injective (d, c) r h) (([], s, refl), (text_eq_iff d.space space).0 at, fits)
found_in-IsMatch space t d s true none later (e, b) at fits k h =
    let (there, at_e, fits_e) = k h in (later_Has d e s there, at_e, fits_e)
found_in-IsMatch space t d s false o later (e, b) at fits k h =
    let (there, at_e, fits_e) = k h in (later_Has d e s there, at_e, fits_e)

-- The oldest match is a match.
pub oldest-IsMatch :
    (space : Text) (t : Template) (s : Contents) (r : StoredTuple × Bindings)
    → oldest space t s ≡ some r
    → IsMatch space t s r
unfolding oldest
oldest-IsMatch space t [] r h = cc
oldest-IsMatch space t (d ∷ s) r h =
    found_in-IsMatch space t d s _ _ (oldest space t s) r refl refl (oldest-IsMatch space t s r) h

middle_other :
    (d e : StoredTuple) (before after : Contents)
    → IsNew d.id (before ++ e ∷ after)
    → int_eq e.id d.id ≡ false
middle_other d e [] after (n, ns) = n
middle_other d e (b ∷ before) after (n, ns) = middle_other d e before after ns

-- Taking a tuple that is there leaves those before it and those behind it.
pub take_away_lem :
    (e : StoredTuple) (b : Bindings) (before after : Contents)
    → Distinct (before ++ e ∷ after)
    → take_away (some (e, b)) (before ++ e ∷ after) ≡ before ++ after
take_away_lem e b [] after (n, d) = rw ((int_eq_iff e.id e.id).1 refl) (all_kept e.id after n)
take_away_lem e b (d ∷ before) after (n, ds) =
    rw (take_away_lem e b before after ds)
      (rw (flip e.id d.id (middle_other d e before after n)) refl)

-- Taking a match removes one tuple.
length-take_away :
    (space : Text) (t : Template) (s : Contents) (r : StoredTuple × Bindings)
    → Distinct s
    → IsMatch space t s r
    → suc (length (take_away (some r) s)) ≡ length s
length-take_away space t s (e, b) d ((before, after, split), here, fits) = rw split (
    rw (take_away_lem e b before after (rw split at d))
      (rw (length-append before) (rw (length-append before) (omega arith))))

abbrev Balanced : List Event → Contents → Contents → Type 0
Balanced es s s' = Distinct s' × (length s' + takes es ≡ length s + writes es)

took :
    (space : Text) (t v : Template) (s : Contents) (o : Option (StoredTuple × Bindings))
    → Distinct s
    → oldest space v s ≡ o
    → Balanced (looked true space t (answer o) ∷ []) s (take_away o s)
took space t v s none d e = (d, refl)
took space t v s (some r) d e =
    let fewer = length-take_away space v s r d (oldest-IsMatch space v s r e) in
    (take_away-Distinct (some r) s d, omega (arith, fewer))

May-Balanced : (e : Event) (s s' : Contents) → Distinct s → May e s s' → Balanced (e ∷ []) s s'
May-Balanced (wrote space u) s s' d (id, v, accepted, new, e) =
    rw e (put-Distinct id space v s new d, rw (length-append s) (omega arith))
May-Balanced (looked false space t found) s s' d (v, accepted, e, same) = rw same (d, refl)
May-Balanced (looked true space t found) s s' d (v, accepted, e, same) =
    rw (e, same) (took space t v s (oldest space v s) d refl)

pub more_writes : (e : Event) (es : List Event) → writes (e ∷ es) ≡ writes (e ∷ []) + writes es
more_writes (wrote space u) es = omega arith
more_writes (looked taking space t found) es = omega arith

more_takes : (e : Event) (es : List Event) → takes (e ∷ es) ≡ takes (e ∷ []) + takes es
more_takes (wrote space u) es = omega arith
more_takes (looked true space t (some found)) es = omega arith
more_takes (looked true space t none) es = omega arith
more_takes (looked false space t found) es = omega arith

pub Runs-Balanced :
    (es : List Event) (s s' : Contents) → Distinct s → Runs May es s s' → Balanced es s s'
Runs-Balanced [] s s' d h = rw h (d, refl)
Runs-Balanced (e ∷ es) s s' d (m, step, rest) =
    let (d', one) = May-Balanced e s m d step in
    let (d'', more) = Runs-Balanced es m s' d' rest in
    (d'', omega (arith, one, more, more_writes e es, more_takes e es))
