-- ===== src/Service/Concurrent/Exclusive.antt =====
-- No tuple is answered twice, whatever the order of the steps (internal/service/service.go).
use tuplespace.Base.{
  Option, none, refl, ℕ, ◌+◌, ◌≤◌, ◌≡◌, inl, inr, Bool, true, false, ◌&&◌, some, List, [], ◌∷◌,
  ◌++◌, Text, ◌==◌, ℤ, int_eq, int_eq_iff, All, arith, Bool-cases,
}
use tuplespace.Types.{Tuple, Template}
use tuplespace.Match.{Bindings}
use tuplespace.Store.{StoredTuple}
use tuplespace.Store.Query.{effective_limit}
use tuplespace.Relational.Candidates.{preselects}
use tuplespace.Space.{Contents, put, take_away}
use tuplespace.Service.{first_match}
use tuplespace.Service.Once.{ids, has_id}
use tuplespace.Service.Concurrent.{
  Consumer, Shared, holders, unlocked_candidates, consumer_of, times_id, Step, lock, commit,
  rollback, writer_commit, Reach, start, next,
}
use tuplespace.Service.Concurrent.Locks.{
  has_id-take_rows, has_id-keep, has_id-first_match, left, has_id-left_same, has_id-left_other,
  has_id-put, holders-split, times_id-has_id,
}

abbrev pub one_if : Bool → ℕ
one_if true = 1
one_if false = 0

abbrev pub rows_of_id : ℤ → Shared → ℕ
rows_of_id id s = one_if (has_id id (ids s.table))

abbrev pub IsLocked : Option (StoredTuple × Bindings) → List ℤ → Type 0
IsLocked none locked = Unit
IsLocked (some (e, b)) locked = has_id e.id locked ≡ true

-- A chosen tuple is among the locked rows.
abbrev pub ChosenLocked : Consumer → Type 0
ChosenLocked c = IsLocked c.chosen c.locked

first_match-IsLocked :
    (t : Template) (cs : Contents) (o : Option (StoredTuple × Bindings))
    → first_match t cs ≡ o
    → IsLocked o (ids cs)
first_match-IsLocked t cs none h = tt
first_match-IsLocked t cs (some (e, b)) h = has_id-first_match t cs e b h

-- A row is locked by one transaction at most, and only while it is there; a row is there or was
-- answered, once.
abbrev pub Exclusive : Shared → Type 0
Exclusive s =
    ((id : ℤ) → holders id s.consumers ≤ rows_of_id id s)
    × ((id : ℤ) → rows_of_id id s + times_id id s.taken ≤ 1)
    × All ChosenLocked s.consumers

All-middle :
    (before after : List Consumer) (c : Consumer)
    → All ChosenLocked (before ++ c ∷ after)
    → ChosenLocked c × All ChosenLocked (before ++ after)
All-middle [] after c (h, hs) = (h, hs)
All-middle (d ∷ before) after c (h, hs) =
    let (here, rest) = All-middle before after c hs in (here, (h, rest))

lock-Exclusive :
    (limit : ℤ) (s : Shared) (space : Text) (t : Template)
    → Exclusive s
    → Exclusive
        (record s { consumers = consumer_of t (unlocked_candidates limit space t s) ∷ s.consumers })
unfolding consumer_of unlocked_candidates
lock-Exclusive limit s space t (locks, once, chosen) =
    let cs = unlocked_candidates limit space t s in
    (
      λ id. elim (Bool-cases (has_id id (ids cs))) [
        | inr h ↦ rw h (locks id)
        | inl h ↦
            let (there, free) =
              has_id-keep id (λ e. (holders e.id s.consumers == 0) && preselects space t e)
                (λ i. holders i s.consumers == 0) s.table (λ e p. ground arith)
                (has_id-take_rows id (effective_limit limit) _ h) in
            rw h (rw there (ground arith))
      ],
      once,
      (first_match-IsLocked t cs _ refl, chosen),
    )

rollback-Exclusive :
    (s : Shared) (before after : List Consumer) (c : Consumer)
    → s.consumers ≡ before ++ c ∷ after
    → Exclusive s
    → Exclusive (record s { consumers = before ++ after })
rollback-Exclusive s before after c split (locks, once, chosen) = (
  λ id.
      let held : holders id (before ++ c ∷ after) ≤ rows_of_id id s = rw (← split) (locks id) in
      ground (arith, held, holders-split id before after c),
  once,
  (All-middle before after c (rw split at chosen)).1,
)

writer_commit-Exclusive :
    (s : Shared) (id : ℤ) (space : Text) (u : Tuple)
    → has_id id (ids s.table) ≡ false
    → has_id id s.taken ≡ false
    → Exclusive s
    → Exclusive (record s { table = put id space u s.table })
writer_commit-Exclusive s k space u absent fresh (locks, once, chosen) = (
  λ id. ground (arith, locks id, has_id-put id k space u s.table),
  λ id. elim (Bool-cases (int_eq k id)) [
    | inr other ↦ rw (has_id-put id k space u s.table) (rw other (ground (arith, once id)))
    | inl same ↦
        let equal : k ≡ id = (int_eq_iff k id).0 same in
        let gone : times_id id s.taken ≡ 0 = times_id-has_id id s.taken (rw (← equal) fresh) in
        ground (arith, gone)
  ],
  chosen,
)

one_if-le : (b : Bool) → one_if b ≤ 1
one_if-le true = omega arith
one_if-le false = omega arith

-- The rows and answers behind a commit, for the tuple that is answered and for any other number.
commit_count :
    (s : Shared) (before after : List Consumer) (c : Consumer) (k id : ℤ)
    → s.consumers ≡ before ++ c ∷ after
    → has_id k c.locked ≡ true
    → ((i : ℤ) → holders i s.consumers ≤ rows_of_id i s)
    → ((i : ℤ) → rows_of_id i s + times_id i s.taken ≤ 1)
    → (holders id (before ++ after) ≤ one_if (has_id id (ids (left k s.table))))
      × (one_if (has_id id (ids (left k s.table))) + times_id id (k ∷ s.taken) ≤ 1)
commit_count s before after c k id split mine locks once =
    let held : holders id (before ++ c ∷ after) ≤ rows_of_id id s = rw (← split) (locks id) in
    elim (Bool-cases (int_eq k id)) [
      | inl same ↦
          let equal : k ≡ id = (int_eq_iff k id).0 same in
          let gone : has_id id (ids (left k s.table)) ≡ false =
            rw equal (has_id-left_same id s.table) in
          let here : has_id id c.locked ≡ true = rw (← equal) mine in
          let few : rows_of_id id s ≤ 1 = one_if-le (has_id id (ids s.table)) in
          rw gone (ground (arith, held, holders-split id before after c, once id))
      | inr other ↦
          let kept = has_id-left_other id k s.table other in
          rw kept (ground (arith, held, holders-split id before after c, once id))
    ]

commit-Exclusive :
    (s : Shared) (before after : List Consumer) (c : Consumer) (e : StoredTuple) (b : Bindings)
    → s.consumers ≡ before ++ c ∷ after
    → c.chosen ≡ some (e, b)
    → Exclusive s
    → Exclusive (record {
      table = take_away c.chosen s.table;
      consumers = before ++ after;
      taken = e.id ∷ s.taken;
    })
commit-Exclusive s before after c e b split is (locks, once, chosen) =
    let (mine, rest) = All-middle before after c (rw split at chosen) in
    let count =
      λ (id : ℤ). commit_count s before after c e.id id split (rw is at mine) locks once in
    rw is (λ id. (count id).0, λ id. (count id).1, rest)

Step-Exclusive : (limit : ℤ) {s s' : Shared} → Step limit s s' → Exclusive s → Exclusive s'
Step-Exclusive limit {s} (lock space t) h = lock-Exclusive limit s space t h
Step-Exclusive limit {s} (commit before after c e b split is) h =
    commit-Exclusive s before after c e b split is h
Step-Exclusive limit {s} (rollback before after c split) h =
    rollback-Exclusive s before after c split h
Step-Exclusive limit {s} (writer_commit id space u absent fresh) h =
    writer_commit-Exclusive s id space u absent fresh h

-- Whatever the order in which any number of consuming transactions and writers take their steps, a row is
-- locked by one open transaction at most and is then still in the table, a number is answered at most
-- once and is then no longer in the table, and the tuple that an open transaction has chosen is among
-- the rows that it has locked.
pub Reach-Exclusive : (limit : ℤ) (s : Shared) → Reach limit s → Exclusive s
Reach-Exclusive limit s start = (λ id. omega arith, λ id. omega arith, tt)
Reach-Exclusive limit s (next {s = m} r step) =
    Step-Exclusive limit step (Reach-Exclusive limit m r)
