-- ===== src/Notify/Invariant.antt =====
-- What holds of the notifier's state between two requests (internal/notify/notifier.go), in terms of
-- the subscriptions that `Subscribe` has handed out.
use tuplespace.Base.{
  ℕ, ◌+◌, ◌-◌, ◌<◌, ◌≡◌, inl, inr, refl, ap, true, false, ◌&&◌, ◌||◌, not, Option, none, some, List,
  [], ◌∷◌, Text, text_eq, text_eq_iff, ◌==◌, ==_iff, length, if◌then◌else◌, arith, Bool-cases,
  Option-cases,
}
use tuplespace.Base.Maps.{Map, get, get-put, get-remove}
use tuplespace.Notify.{
  Subscription, State, or_zero, or_nil, ref_count, subs, has_id, add_id, with_set, join, without_id,
  store_set, store_count, leave, init,
}

abbrev pub Distinct : List ℕ → Type 0
Distinct [] = Unit
Distinct (p ∷ ps) = (has_id p ps ≡ false) × Distinct ps

-- A subscription of the channel that nobody has closed.
pub record IsLive (s : Subscription) (ch : Text) : Type 0 where
  pub channel : s.channel ≡ ch
  pub closed : s.closed ≡ false
  pub shut : s.shut ≡ false

pub record Inv (handles : List ℕ) (st : State) : Type 0 where
  pub counts : (ch : Text) → ref_count st ch ≡ length (subs st ch)
  pub distinct : (ch : Text) → Distinct (subs st ch)
  pub live : (ch : Text) (p : ℕ) → has_id p (subs st ch) ≡ true → IsLive (st.heap p) ch
  pub below : (ch : Text) (p : ℕ) → has_id p (subs st ch) ≡ true → p < st.next
  pub held :
      (p : ℕ)
      → has_id p handles ≡ true
      → (p < st.next) × ((st.heap p).closed ≡ false → has_id p (subs st (st.heap p).channel) ≡ true)

-- The initial state has no subscription.
pub init-Inv : Inv [] init
unfolding has_id get
init-Inv = record {
  counts = λ ch. refl;
  distinct = λ ch. tt;
  live = λ ch p h. absurd (ground arith);
  below = λ ch p h. absurd (ground arith);
  held = λ p h. absurd (ground arith);
}

-- How the requests change the two maps.
pub subs-with_set :
    (ch j : Text) (st : State) → subs (with_set ch (get ch st.subscribers) st) j ≡ subs st j
subs-with_set ch j st = elim (Option-cases (get ch st.subscribers)) [
  | inl e ↦ rw e (ground (arith, get-put ch j [] st.subscribers, text_eq_iff ch j))
  | inr (l, e) ↦ rw e
]

pub ref_count-with_set :
    (ch j : Text) (o : Option (List ℕ)) (st : State)
    → ref_count (with_set ch o st) j ≡ ref_count st j
ref_count-with_set ch j none st = refl
ref_count-with_set ch j (some l) st = refl

module _ (ch j : Text) (p : ℕ) (st : State) where
  pub subs-join :
      subs (join ch p st) j ≡ (if text_eq ch j then add_id p (subs st ch) else subs st j)
  unfolding join
  subs-join = ground (arith, get-put ch j (add_id p (subs st ch)) st.subscribers)

  pub ref_count-join :
      ref_count (join ch p st) j ≡ (if text_eq ch j then ref_count st ch + 1 else ref_count st j)
  unfolding join
  ref_count-join = ground (arith, get-put ch j (ref_count st ch + 1) st.ref_counts)

or_nil-store_set :
    (ch j : Text) (l : List ℕ) (m : Map (List ℕ))
    → or_nil (get j (store_set ch l m)) ≡ (if text_eq ch j then l else or_nil (get j m))
or_nil-store_set ch j [] m = ground (arith, get-remove ch j m)
or_nil-store_set ch j (q ∷ qs) m = ground (arith, get-put ch j (q ∷ qs) m)

or_zero-store_count :
    (ch j : Text) (n : ℕ) (m : Map ℕ)
    → or_zero (get j (store_count ch n m)) ≡ (if text_eq ch j then n else or_zero (get j m))
or_zero-store_count ch j n m = ground (arith, get-remove ch j m, get-put ch j n m)

module _ (ch j : Text) (p : ℕ) (st : State) where
  pub subs-leave :
      subs (leave ch p st) j ≡ (if text_eq ch j then without_id p (subs st ch) else subs st j)
  unfolding leave
  subs-leave = or_nil-store_set ch j (without_id p (subs st ch)) st.subscribers

  pub ref_count-leave :
      ref_count (leave ch p st) j ≡ (if text_eq ch j then ref_count st ch - 1 else ref_count st j)
  unfolding leave
  ref_count-leave = or_zero-store_count ch j (ref_count st ch - 1) st.ref_counts

-- The sets of subscriptions.
pub length-add_id : (p : ℕ) (l : List ℕ) → has_id p l ≡ false → length (add_id p l) ≡ length l + 1
unfolding add_id
length-add_id p l h = rw h (omega arith)

pub has_id-without_id :
    (p q : ℕ) (l : List ℕ) → has_id q (without_id p l) ≡ (has_id q l && not (p == q))
unfolding has_id without_id
has_id-without_id p q [] = refl
has_id-without_id p q (x ∷ l) = ground (arith, has_id-without_id p q l)

without_id-absent : (p : ℕ) (l : List ℕ) → has_id p l ≡ false → without_id p l ≡ l
unfolding has_id without_id
without_id-absent p [] h = refl
without_id-absent p (x ∷ l) h = ground (arith, without_id-absent p l)

has_id-pos : (p : ℕ) (l : List ℕ) → has_id p l ≡ true → 0 < length l
unfolding has_id
has_id-pos p [] h = absurd (ground arith)
has_id-pos p (x ∷ l) h = omega arith

pub length-without_id :
    (p : ℕ) (l : List ℕ) → Distinct l → has_id p l ≡ true → length (without_id p l) ≡ length l - 1
unfolding has_id without_id
length-without_id p [] d h = absurd (ground arith)
length-without_id p (x ∷ l) (new, d) h = elim (Bool-cases (x == p)) [
  | inl e ↦
      let same : x ≡ p = (==_iff x p).0 e in
      rw e (omega (arith, ap length (without_id-absent p l (rw same at new))))
  | inr n ↦
      let later : has_id p l ≡ true = ground arith in
      rw n (omega (arith, length-without_id p l d later, has_id-pos p l later))
]

pub without_id-Distinct : (p : ℕ) (l : List ℕ) → Distinct l → Distinct (without_id p l)
unfolding without_id
without_id-Distinct p [] d = tt
without_id-Distinct p (x ∷ l) (new, d) =
    ground (arith, has_id-without_id p x l, without_id-Distinct p l d)

pub has_id-add_id : (p q : ℕ) (l : List ℕ) → has_id q (add_id p l) ≡ ((p == q) || has_id q l)
unfolding add_id has_id
has_id-add_id p q l = elim (Bool-cases (has_id p l)) [
  | inr n ↦ rw n
  | inl h ↦ rw h (elim (Bool-cases (p == q)) [
    | inl e ↦ let h' : has_id q l ≡ true = rw ((==_iff p q).0 e) at h in rw (e, h')
    | inr n ↦ rw n
  ])
]

pub add_id-Distinct : (p : ℕ) (l : List ℕ) → Distinct l → Distinct (add_id p l)
unfolding add_id
add_id-Distinct p l d = elim (Bool-cases (has_id p l)) [ inl h ↦ rw h d | inr n ↦ rw n (n, d) ]
