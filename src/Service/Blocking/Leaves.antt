-- ===== src/Service/Blocking/Leaves.antt =====
-- The whole of `read` and the register of waiting reads (internal/service/service.go).
use tuplespace.Base.{
  ℕ, inl, inr, refl, Bool, true, false, List, [], ◌∷◌, Text, ℤ, pos, negsuc, Result, ok, err, ◌>>◌,
  wrap, ◌==◌, Bool-cases,
}
use tuplespace.Types.{Template}
use tuplespace.Validation.{validate_space, validate_template}
use tuplespace.Store.Database.{Postgres}
use tuplespace.Service.{Error, Found, invalid}
use tuplespace.Service.Waiters.{Register}
use tuplespace.Service.Blocking.{
  World, Wake, Outcome, returned, waiting, hung, NotifierAnswer, refused, subscribed, unanswered,
  Request, close_subscription, with_subscription, read_subscribed, read_accepted, read,
}
use tuplespace.Service.Blocking.Entries.{Registered, read_loop-Registered}

-- `Close` of the subscription comes behind `unregisterWaiter`, so it does not matter to the register
-- whether it returns.
close_subscription-Registered :
    {D : Type 0} (r : Register) (events : List (Wake D)) (close_returns : Bool)
    (o : Outcome Found D)
    → Registered r events o
    → Registered r events (close_subscription close_returns o)
unfolding close_subscription
close_subscription-Registered r events true o h = h
close_subscription-Registered r events false (returned a w) h = h
close_subscription-Registered r [] false (waiting id w) h = h
close_subscription-Registered r (e ∷ events) false (waiting id w) h = h
close_subscription-Registered r events false (hung w) h = h

with_subscription-Registered :
    {D : Type 0} (events : List (Wake D)) (subscription : NotifierAnswer) (o : Outcome Found D)
    (w : World D)
    → Registered w.waiters events o
    → Registered w.waiters events (with_subscription subscription o w)
unfolding with_subscription
with_subscription-Registered events (refused e) o w h = inl refl
with_subscription-Registered events (subscribed close_returns) o w h =
    close_subscription-Registered w.waiters events close_returns o h
with_subscription-Registered events unanswered o w h = inl refl

module _ (pg : Postgres) (limit : ℤ) where
  open pg use {Db}

  read_subscribed-Registered :
      (q : Request) (subscription : NotifierAnswer) (events : List (Wake Db)) (w : World Db)
      → Registered w.waiters events (read_subscribed pg limit q subscription events w)
  unfolding read_subscribed
  read_subscribed-Registered q subscription events w =
      let looped = read_loop-Registered pg limit q events w in
      elim (Bool-cases (q.wait == 0)) [
        | inl e ↦ rw e looped
        | inr e ↦ rw e (with_subscription-Registered events subscription _ w looped)
      ]

  read_accepted-Registered :
      (destructive : Bool) (space : Text) (accepted : Result Error Template) (wait : ℤ) (now : ℕ)
      (subscription : NotifierAnswer) (events : List (Wake Db)) (w : World Db)
      → Registered w.waiters events
          (read_accepted pg limit destructive space accepted wait now subscription events w)
  unfolding read_accepted
  read_accepted-Registered destructive space (err e) wait now subscription events w = inl refl
  read_accepted-Registered destructive space (ok t) (negsuc n) now subscription events w = inl refl
  read_accepted-Registered destructive space (ok t) (pos n) now subscription events w =
      read_subscribed-Registered _ subscription events w

  -- A read enters the register of waiting reads under the register's next number at most: one that
  -- waits has this number, and its entry is there when it first waits; one that has returned, or
  -- hangs in the notifier, has either left the register that it started with as it was or has no entry
  -- under that number, whatever the other calls have done to the register while it waited.
  pub read-Registered :
      (destructive : Bool) (space : Text) (t : Template) (wait : ℤ) (now : ℕ)
      (subscription : NotifierAnswer) (events : List (Wake Db)) (w : World Db)
      → Registered w.waiters events
          (read pg limit destructive space t wait now subscription events w)
  unfolding read
  read-Registered destructive space t wait now subscription events w =
      read_accepted-Registered destructive space
        (wrap invalid (validate_space space >> validate_template t)) wait now subscription events w
