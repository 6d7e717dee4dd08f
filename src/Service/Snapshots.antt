-- ===== src/Service/Snapshots.antt =====
-- The order of the waiters that `waitersSnapshot` gives (internal/service/service.go).
use tuplespace.Base.{
  ℕ, suc, ◌≡◌, ◌<◌, ◌≤◌, ◌⊎◌, All, inl, inr, refl, true, false, List, [], ◌∷◌, ◌==◌, arith,
  Bool-cases, if◌then◌else◌,
}
use tuplespace.Service.Waiters.{
  WaiterInfo, Register, before, insert_sorted, sort_waiters, waiters_snapshot,
}

-- The one has started before the other, or at the same time with a number that is not larger.
abbrev pub Earlier : WaiterInfo → WaiterInfo → Type 0
Earlier a b = (a.started_at < b.started_at) ⊎ ((a.started_at ≡ b.started_at) × (a.id ≤ b.id))

abbrev pub InOrder : List WaiterInfo → Type 0
InOrder [] = Unit
InOrder (w ∷ ws) = All (Earlier w) ws × InOrder ws

-- No waiter comes before one that stands in front of it.
abbrev NotBelow : WaiterInfo → List WaiterInfo → Type 0
NotBelow w [] = Unit
NotBelow w (x ∷ xs) = (before x w ≡ false) × NotBelow w xs

abbrev Sorted : List WaiterInfo → Type 0
Sorted [] = Unit
Sorted (w ∷ ws) = NotBelow w ws × Sorted ws

Earlier-before : (a b : WaiterInfo) → before b a ≡ false → Earlier a b
unfolding before
Earlier-before a b h = elim (Bool-cases (b.started_at == a.started_at)) [
  | inl e ↦ inr (ground arith, ground arith)
  | inr e ↦ inl (ground arith)
]

NotBelow-Earlier : (a : WaiterInfo) (ws : List WaiterInfo) → NotBelow a ws → All (Earlier a) ws
NotBelow-Earlier a [] h = tt
NotBelow-Earlier a (b ∷ ws) (h, hs) = (Earlier-before a b h, NotBelow-Earlier a ws hs)

Sorted-InOrder : (ws : List WaiterInfo) → Sorted ws → InOrder ws
Sorted-InOrder [] h = tt
Sorted-InOrder (w ∷ ws) (h, hs) = (NotBelow-Earlier w ws h, Sorted-InOrder ws hs)

-- How often the list has a waiter of this number.
abbrev pub occurrences : ℕ → List WaiterInfo → ℕ
occurrences id [] = 0
occurrences id (w ∷ ws) = if w.id == id then suc (occurrences id ws) else occurrences id ws

before_asymmetric : (a b : WaiterInfo) → before a b ≡ true → before b a ≡ false
unfolding before
before_asymmetric a b h = ground arith

-- The order is total, so that what is not before may be passed over.
before_passes : (a b c : WaiterInfo) → before b a ≡ false → before c b ≡ false → before c a ≡ false
unfolding before
before_passes a b c h k = ground arith

passes_over :
    (a b : WaiterInfo) (ws : List WaiterInfo) → before b a ≡ false → NotBelow b ws → NotBelow a ws
passes_over a b [] h k = tt
passes_over a b (c ∷ ws) h (k, ks) = (before_passes a b c h k, passes_over a b ws h ks)

insert_sorted-NotBelow :
    (a w : WaiterInfo) (ws : List WaiterInfo)
    → before w a ≡ false
    → NotBelow a ws
    → NotBelow a (insert_sorted w ws)
unfolding insert_sorted
insert_sorted-NotBelow a w [] h k = (h, tt)
insert_sorted-NotBelow a w (x ∷ xs) h (k, ks) = elim (Bool-cases (before x w)) [
  | inl e ↦ rw e (k, insert_sorted-NotBelow a w xs h ks)
  | inr e ↦ rw e (h, (k, ks))
]

insert_sorted-Sorted :
    (w : WaiterInfo) (ws : List WaiterInfo) → Sorted ws → Sorted (insert_sorted w ws)
unfolding insert_sorted
insert_sorted-Sorted w [] h = (tt, tt)
insert_sorted-Sorted w (x ∷ xs) (below, rest) = elim (Bool-cases (before x w)) [
  | inl e ↦ rw e (
    insert_sorted-NotBelow x w xs (before_asymmetric x w e) below,
    insert_sorted-Sorted w xs rest,
  )
  | inr e ↦ rw e ((e, passes_over w x xs e below), (below, rest))
]

occurrences-insert_sorted :
    (id : ℕ) (w : WaiterInfo) (ws : List WaiterInfo)
    → occurrences id (insert_sorted w ws) ≡ occurrences id (w ∷ ws)
unfolding insert_sorted
occurrences-insert_sorted id w [] = refl
occurrences-insert_sorted id w (x ∷ xs) = ground (arith, occurrences-insert_sorted id w xs)

sort_waiters-Sorted : (ws : List WaiterInfo) → Sorted (sort_waiters ws)
unfolding sort_waiters
sort_waiters-Sorted [] = tt
sort_waiters-Sorted (w ∷ ws) = insert_sorted-Sorted w (sort_waiters ws) (sort_waiters-Sorted ws)

occurrences-sort_waiters :
    (id : ℕ) (ws : List WaiterInfo) → occurrences id (sort_waiters ws) ≡ occurrences id ws
unfolding sort_waiters
occurrences-sort_waiters id [] = refl
occurrences-sort_waiters id (w ∷ ws) =
    ground (arith, occurrences-insert_sorted id w (sort_waiters ws), occurrences-sort_waiters id ws)

-- In the list of waiting reads each has started before those behind it, or at the same time with a
-- number that is not larger, and the list has each number as often as the register.
pub waiters_snapshot-InOrder :
    (r : Register)
    → InOrder (waiters_snapshot r)
      × ((id : ℕ) → occurrences id (waiters_snapshot r) ≡ occurrences id r.active_waiters)
unfolding waiters_snapshot
waiters_snapshot-InOrder r = (
  Sorted-InOrder (sort_waiters r.active_waiters) (sort_waiters-Sorted r.active_waiters),
  λ id. occurrences-sort_waiters id r.active_waiters,
)
