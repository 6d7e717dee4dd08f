-- ===== src/Service/Blocking/Entries.antt =====
-- The entry of a blocking read in the register (internal/service/service.go).
use tuplespace.Base.{
  ℕ, ◌≡◌, inl, inr, refl, Bool, true, false, ◌⊎◌, ◌+◌, ◌%◌, ==_refl, ◌||◌, Option, none, some, List,
  [], ◌∷◌, ◌==◌, ℤ, Result, ok, err, Bool-cases,
}
use tuplespace.Store.Database.{Postgres}
use tuplespace.Service.{Error, Found, not_found, timeout, canceled}
use tuplespace.Service.Waiters.{
  WaiterInfo, Register, register_waiter, unregister_waiter, without_waiter,
}
use tuplespace.Service.Blocking.{
  World, Wake, notified, deadline, cancel, Outcome, returned, waiting, hung, Request, finish, enter,
  after_attempt, read_loop,
}

abbrev pub has_waiter : ℕ → List WaiterInfo → Bool
has_waiter id [] = false
has_waiter id (w ∷ ws) = (w.id == id) || has_waiter id ws

without_waiter_gone : (id : ℕ) (ws : List WaiterInfo) → has_waiter id (without_waiter id ws) ≡ false
unfolding without_waiter
without_waiter_gone id [] = refl
without_waiter_gone id (w ∷ ws) = elim (Bool-cases (w.id == id)) [
  | inl e ↦ rw e (without_waiter_gone id ws)
  | inr e ↦ rw e (rw e (without_waiter_gone id ws))
]

-- Whatever the other calls do to the register, a read under this number has no entry when it has
-- returned, and one that waits does so under this number.
abbrev pub Cleared : {D : Type 0} → ℕ → Outcome Found D → Type 0
Cleared id (returned r w) = has_waiter id w.waiters.active_waiters ≡ false
Cleared id (waiting other w) = other ≡ id
Cleared id (hung w) = has_waiter id w.waiters.active_waiters ≡ false

finish-Cleared :
    {D : Type 0} (id : ℕ) (r : Result Error Found) (w : World D) → Cleared id (finish (some id) r w)
unfolding finish unregister_waiter
finish-Cleared id r w = without_waiter_gone id w.waiters.active_waiters

module _ (pg : Postgres) (limit : ℤ) where
  open pg use {Db}

  after_attempt-Cleared :
      (q : Request) (id : ℕ) (next : ℕ × World Db → Outcome Found Db) (w : World Db)
      (r : Result Error (Option Found × Db))
      → ((w' : World Db) → Cleared id (next (id, w')))
      → Cleared id (after_attempt pg limit q (some id) next w r)
  unfolding after_attempt enter
  after_attempt-Cleared q id next w (err e) k = finish-Cleared id (err e) w
  after_attempt-Cleared q id next w (ok (some found, db')) k =
      finish-Cleared id (ok found) (record w { db = db' })
  after_attempt-Cleared q id next w (ok (none, db')) k = elim (Bool-cases (q.wait == 0)) [
    | inl e ↦ rw e (finish-Cleared id (err not_found) (record w { db = db' }))
    | inr e ↦ rw e (k (record w { db = db' }))
  ]

  -- A blocking read that has an entry in the register keeps its number as long as it waits, and has no
  -- entry when it has returned, however it ends and whatever the other calls have done to the
  -- register.
  pub read_loop-Cleared :
      (q : Request) (events : List (Wake Db)) (id : ℕ) (w : World Db)
      → Cleared id (read_loop pg limit q events (some id) w)
  unfolding read_loop
  read_loop-Cleared q [] id w =
      after_attempt-Cleared q id (λ (id, w'). waiting id w') w _ (λ w'. refl)
  read_loop-Cleared q (notified seen ∷ events) id w =
      after_attempt-Cleared q id (λ (id, w'). read_loop pg limit q events (some id) seen) w _
        (λ w'. read_loop-Cleared q events id seen)
  read_loop-Cleared q (deadline seen ∷ events) id w =
      after_attempt-Cleared q id (λ (id, w'). finish (some id) (err timeout) seen) w _
        (λ w'. finish-Cleared id (err timeout) seen)
  read_loop-Cleared q (cancel seen ∷ events) id w =
      after_attempt-Cleared q id (λ (id, w'). finish (some id) (err canceled) seen) w _
        (λ w'. finish-Cleared id (err canceled) seen)

-- The number of the next entry.
abbrev pub next_number : Register → ℕ
next_number r = (r.next_waiter_id + 1) % 18446744073709551616

-- What a read with this register at its start has done to it: while it waits it does so under the next
-- number, which it has entered; when it is over it has entered nothing, or has no entry any more.
abbrev pub Registered : {D : Type 0} → Register → List (Wake D) → Outcome Found D → Type 0
Registered r events (returned a w) =
    (w.waiters ≡ r) ⊎ (has_waiter (next_number r) w.waiters.active_waiters ≡ false)
Registered r [] (waiting id w) =
    (id ≡ next_number r) × (has_waiter id w.waiters.active_waiters ≡ true)
Registered r (_ ∷ events) (waiting id w) = id ≡ next_number r
Registered r events (hung w) =
    (w.waiters ≡ r) ⊎ (has_waiter (next_number r) w.waiters.active_waiters ≡ false)

Cleared-Registered :
    {D : Type 0} (r : Register) (e : Wake D) (events : List (Wake D)) (o : Outcome Found D)
    → Cleared (next_number r) o
    → Registered r (e ∷ events) o
Cleared-Registered r e events (returned a w) h = inr h
Cleared-Registered r e events (waiting id w) h = h
Cleared-Registered r e events (hung w) h = inr h

module _ (pg : Postgres) (limit : ℤ) where
  open pg use {Db}

  -- Where the first attempt does not end the read, it goes on under the next number, with its entry.
  after_attempt-Registered :
      (q : Request) (events : List (Wake Db)) (next : ℕ × World Db → Outcome Found Db)
      (w : World Db) (r : Result Error (Option Found × Db))
      → ((w' : World Db)
          → has_waiter (next_number w.waiters) w'.waiters.active_waiters ≡ true
          → Registered w.waiters events (next (next_number w.waiters, w')))
      → Registered w.waiters events (after_attempt pg limit q none next w r)
  unfolding after_attempt enter finish register_waiter
  after_attempt-Registered q events next w (err e) k = inl refl
  after_attempt-Registered q events next w (ok (some found, db')) k = inl refl
  after_attempt-Registered q events next w (ok (none, db')) k = elim (Bool-cases (q.wait == 0)) [
    | inl e ↦ rw e (inl refl)
    | inr e ↦ rw e (k _ (rw (==_refl (next_number w.waiters)) refl))
  ]

  pub read_loop-Registered :
      (q : Request) (events : List (Wake Db)) (w : World Db)
      → Registered w.waiters events (read_loop pg limit q events none w)
  unfolding read_loop finish
  read_loop-Registered q [] w =
      after_attempt-Registered q [] (λ (id, w'). waiting id w') w _ (λ w' there. (refl, there))
  read_loop-Registered q (notified seen ∷ events) w =
      after_attempt-Registered q (notified seen ∷ events)
        (λ (id, w'). read_loop pg limit q events (some id) seen) w _
        (λ w' there.
          Cleared-Registered w.waiters (notified seen) events _
            (read_loop-Cleared pg limit q events (next_number w.waiters) seen))
  read_loop-Registered q (deadline seen ∷ events) w =
      after_attempt-Registered q (deadline seen ∷ events)
        (λ (id, w'). finish (some id) (err timeout) seen) w _
        (λ w' there. inr (finish-Cleared (next_number w.waiters) (err timeout) seen))
  read_loop-Registered q (cancel seen ∷ events) w =
      after_attempt-Registered q (cancel seen ∷ events)
        (λ (id, w'). finish (some id) (err canceled) seen) w _
        (λ w' there. inr (finish-Cleared (next_number w.waiters) (err canceled) seen))
