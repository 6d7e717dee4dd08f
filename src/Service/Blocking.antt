-- ===== src/Service/Blocking.antt =====
-- `read` (internal/service/service.go): the subscription, the loop with its attempts and the waits
-- between them, the entry in the register of waiting reads, and the deferred calls. The notifier may
-- leave `Subscribe`, or the `Close` of the subscription, without an answer for ever.
pub mod Answers
pub mod Entries
pub mod Leaves
pub mod Moments
pub mod Whole
use tuplespace.Base.{
  ℕ, Bool, true, false, not, Option, none, some, List, [], ◌∷◌, Text, ℤ, pos, negsuc, Result, ok,
  err, ◌>>=◌, ◌>>◌, wrap, if◌then◌else◌, ◌==◌,
}
use tuplespace.Types.{Tuple, Template}
use tuplespace.Match.{Bindings}
use tuplespace.Validation.{validate_space, validate_template}
use tuplespace.Store.Database.{Postgres}
use tuplespace.Notify
use tuplespace.Service.{
  Error, not_found, timeout, canceled, negative_wait, invalid, notifier, Found, attempt,
}
use tuplespace.Service.Waiters.{Register, register_waiter, unregister_waiter}

-- What a read shares with the other calls.
pub record World (D : Type 0) : Type 0 where
  pub db : D
  pub waiters : Register

-- What the `select` sees, with the world as the other calls have left it: a notification, or the end
-- of the context by its deadline or by its caller.
pub data Wake (D : Type 0) : Type 0 where
  notified deadline cancel : World D → Wake D

-- What the notifier does for one read: `Subscribe` fails, or gives a subscription whose `Close`
-- returns or never does, or never returns.
pub data NotifierAnswer : Type 0 where
  refused : Notify.Error → NotifierAnswer
  subscribed : (close_returns : Bool) → NotifierAnswer
  unanswered : NotifierAnswer

-- A read that is over, one that still waits under its number in the register, or one that is in a
-- call of the notifier which never returns.
pub data Outcome (A D : Type 0) : Type 0 where
  returned : Result Error A → World D → Outcome A D
  waiting : ℕ → World D → Outcome A D
  hung : World D → Outcome A D

-- One call of `read`: what does not change in its loop.
pub record Request : Type 0 where
  pub destructive : Bool
  pub space : Text
  pub template : Template
  pub wait : ℕ
  pub now : ℕ

-- The end of the loop: its result, behind the deferred `unregisterWaiter`, which runs before the
-- deferred `sub.Close()`.
finish : {D : Type 0} → Option ℕ → Result Error Found → World D → Outcome Found D
finish none r w = returned r w
finish (some id) r w = returned r (record w { waiters = unregister_waiter id w.waiters })

-- `if !waiterRegistered { … }`
enter : {D : Type 0} → Request → Option ℕ → World D → ℕ × World D
enter q none w =
    let (waiters, id) = register_waiter q.space q.template q.wait q.destructive q.now w.waiters in
    (id, record w { waiters = waiters })
enter q (some id) w = (id, w)

-- `if err == ErrNotFound { return …, false, nil }`
abbrev found_or_none : Result Error Found → Result Error (Option Found)
found_or_none (ok found) = ok (some found)
found_or_none (err not_found) = ok none
found_or_none (err e) = err e

abbrev present : {D : Type 0} → Outcome Found D → Outcome (Option Found) D
present (returned r w) = returned (found_or_none r) w
present (waiting id w) = waiting id w
present (hung w) = hung w

-- The deferred `sub.Close()`, whose own result is dropped.
close_subscription : {A D : Type 0} → (close_returns : Bool) → Outcome A D → Outcome A D
close_subscription true o = o
close_subscription false (returned r w) = hung w
close_subscription false o = o

-- What a wait makes of the loop: it is reached only with a subscription.
with_subscription : {A D : Type 0} → NotifierAnswer → Outcome A D → World D → Outcome A D
unfolding close_subscription
with_subscription (refused e) looped w = returned (err (notifier e)) w
with_subscription (subscribed close_returns) looped w = close_subscription close_returns looped
with_subscription unanswered looped w = hung w

module _ (pg : Postgres) (limit : ℤ) where
  open pg use {Db}

  -- What follows an attempt; `next` is the `select` and the rest of the loop.
  after_attempt :
      Request
      → Option ℕ
      → (ℕ × World Db → Outcome Found Db)
      → World Db
      → Result Error (Option Found × Db)
      → Outcome Found Db
  unfolding finish enter
  after_attempt q waiter next w (err e) = finish waiter (err e) w
  after_attempt q waiter next w (ok (some found, db')) =
      finish waiter (ok found) (record w { db = db' })
  after_attempt q waiter next w (ok (none, db')) =
      let w' : World Db = record w { db = db' } in
      let rest = next (enter q waiter w') in
      if q.wait == 0 then finish waiter (err not_found) w' else rest

  -- The `for` loop, on what its `select` sees.
  unfoldable pub read_loop : Request → List (Wake Db) → Option ℕ → World Db → Outcome Found Db
  unfolding after_attempt finish
  read_loop q [] waiter w =
      after_attempt q waiter (λ (id, w'). waiting id w') w
        (attempt pg limit q.destructive q.space q.template w.db)
  read_loop q (notified seen ∷ events) waiter w =
      after_attempt q waiter (λ (id, w'). read_loop q events (some id) seen) w
        (attempt pg limit q.destructive q.space q.template w.db)
  read_loop q (deadline seen ∷ events) waiter w =
      after_attempt q waiter (λ (id, w'). finish (some id) (err timeout) seen) w
        (attempt pg limit q.destructive q.space q.template w.db)
  read_loop q (cancel seen ∷ events) waiter w =
      after_attempt q waiter (λ (id, w'). finish (some id) (err canceled) seen) w
        (attempt pg limit q.destructive q.space q.template w.db)

  -- `if wait > 0 { sub, err = s.notifier.Subscribe(space) … defer sub.Close() … }`, and the loop.
  read_subscribed : Request → NotifierAnswer → List (Wake Db) → World Db → Outcome Found Db
  unfolding with_subscription
  read_subscribed q subscription events w =
      let looped = read_loop q events none w in
      if q.wait == 0 then looped else with_subscription subscription looped w

  read_accepted :
      Bool
      → Text
      → Result Error Template
      → ℤ
      → ℕ
      → NotifierAnswer
      → List (Wake Db)
      → World Db
      → Outcome Found Db
  unfolding read_subscribed
  read_accepted destructive space (err e) wait now subscription events w = returned (err e) w
  read_accepted destructive space (ok t) (negsuc n) now subscription events w =
      returned (err negative_wait) w
  read_accepted destructive space (ok t) (pos n) now subscription events w =
      let q : Request = record {
        destructive = destructive;
        space = space;
        template = t;
        wait = n;
        now = now;
      } in
      read_subscribed q subscription events w

  -- `read`, with a wait in nanoseconds.
  unfoldable pub read :
      Bool → Text → Template → ℤ → ℕ → NotifierAnswer → List (Wake Db) → World Db → Outcome Found Db
  unfolding read_accepted
  read destructive space t wait now subscription events w =
      let accepted = wrap invalid (validate_space space >> validate_template t) in
      read_accepted destructive space accepted wait now subscription events w

  unfoldable pub rd :
      Text → Template → ℤ → ℕ → NotifierAnswer → List (Wake Db) → World Db → Outcome Found Db
  rd = read false

  unfoldable pub take_in :
      Text → Template → ℤ → ℕ → NotifierAnswer → List (Wake Db) → World Db → Outcome Found Db
  take_in = read true

  -- `Rdp` and `Inp`
  unfoldable pub rdp : Text → Template → ℕ → NotifierAnswer → World Db → Outcome (Option Found) Db
  rdp space t now subscription w = present (rd space t (pos 0) now subscription [] w)

  unfoldable pub inp : Text → Template → ℕ → NotifierAnswer → World Db → Outcome (Option Found) Db
  inp space t now subscription w = present (take_in space t (pos 0) now subscription [] w)
