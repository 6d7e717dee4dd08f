-- ===== src/Service/Blocking/Whole.antt =====
-- The whole of `read` (internal/service/service.go): what its answers mean, and when it returns.
use tuplespace.Base.{
  ℕ, zero, suc, ◌≡◌, inl, inr, refl, Bool, true, false, ◌||◌, none, some, List, Text, ℤ, pos,
  negsuc, Result, ok, err, ◌>>◌, wrap, ◌==◌, >>-eq-ok, Bool-cases,
}
use tuplespace.Types.{Template}
use tuplespace.Match.{match}
use tuplespace.Validation
use tuplespace.Validation.{validate_space, validate_template}
use tuplespace.Store.Database.{Postgres}
use tuplespace.Service.{
  Error, not_found, timeout, canceled, negative_wait, begin_failed, commit_failed, invalid, store,
  notifier, Found,
}
use tuplespace.Service.Blocking.{
  World, Wake, Outcome, returned, waiting, hung, NotifierAnswer, refused, subscribed, unanswered,
  Request, close_subscription, with_subscription, read_subscribed, read_accepted, read,
}
use tuplespace.Service.Blocking.Answers.{
  has_deadline, has_cancel, is_internal, Answer, Answered, read_loop-Answered,
}

-- Whether the notifier answers the calls of a read.
abbrev pub answers : NotifierAnswer → Bool
answers (refused e) = true
answers (subscribed close_returns) = close_returns
answers unanswered = false

abbrev pub is_positive : ℤ → Bool
is_positive (pos zero) = false
is_positive (pos (suc n)) = true
is_positive (negsuc n) = false

-- What an answer of a whole read says.
abbrev pub ReadAnswer :
    Text → Template → ℤ → NotifierAnswer → (late given_up : Bool) → Result Error Found → Type 0
ReadAnswer space t wait subscription late given_up (ok (tuple, b)) =
    (n : Template) × (validate_template t ≡ ok n) × (match n tuple ≡ some b)
ReadAnswer space t wait subscription late given_up (err not_found) = wait ≡ pos 0
ReadAnswer space t wait subscription late given_up (err timeout) = late ≡ true
ReadAnswer space t wait subscription late given_up (err canceled) = given_up ≡ true
ReadAnswer space t wait subscription late given_up (err negative_wait) = (n : ℕ) × (wait ≡ negsuc n)
ReadAnswer space t wait subscription late given_up (err (invalid e)) =
    (validate_space space >> validate_template t) ≡ err e
ReadAnswer space t wait subscription late given_up (err (notifier e)) = subscription ≡ refused e
ReadAnswer space t wait subscription late given_up (err e) = is_internal e ≡ true

abbrev pub ReadAnswered :
    {D : Type 0}
    → Text
    → Template
    → ℤ
    → NotifierAnswer
    → (late given_up : Bool) → Outcome Found D
    → Type 0
ReadAnswered space t wait subscription late given_up (returned r w) =
    ReadAnswer space t wait subscription late given_up r
ReadAnswered space t wait subscription late given_up (waiting id w) = (late || given_up) ≡ false
ReadAnswered space t wait subscription late given_up (hung w) =
    (answers subscription ≡ false) × (is_positive wait ≡ true)

module _ (space : Text) (t : Template) (subscription : NotifierAnswer) (late given_up : Bool) where
  -- The answer of the loop, for the template as it was accepted.
  loop-ReadAnswer :
      (q : Request) (r : Result Error Found)
      → validate_template t ≡ ok q.template
      → Answer q late given_up r
      → ReadAnswer space t (pos q.wait) subscription late given_up r
  loop-ReadAnswer q (ok (tuple, b)) v h = (q.template, v, h)
  loop-ReadAnswer q (err not_found) v h = rw h refl
  loop-ReadAnswer q (err timeout) v h = h
  loop-ReadAnswer q (err canceled) v h = h
  loop-ReadAnswer q (err begin_failed) v h = refl
  loop-ReadAnswer q (err commit_failed) v h = refl
  loop-ReadAnswer q (err (store e)) v h = refl
  loop-ReadAnswer q (err _) v h = cc

  abbrev Loops : {D : Type 0} → Request → Outcome Found D → Type 0
  Loops q o = ReadAnswered space t (pos q.wait) subscription late given_up o

  loop-ReadAnswered :
      {D : Type 0} (q : Request) (o : Outcome Found D)
      → validate_template t ≡ ok q.template
      → Answered q late given_up o
      → Loops q o
  loop-ReadAnswered q (returned r w) v h = loop-ReadAnswer q r v h
  loop-ReadAnswered q (waiting id w) v h = h
  loop-ReadAnswered q (hung w) v h = absurd h

positive : (n : ℕ) → (n == 0) ≡ false → is_positive (pos n) ≡ true
positive zero h = cc
positive (suc n) h = refl

module _ (space : Text) (t : Template) (late given_up : Bool) where
  closed-ReadAnswered :
      {D : Type 0} (q : Request) (o : Outcome Found D)
      → validate_template t ≡ ok q.template
      → is_positive (pos q.wait) ≡ true
      → Answered q late given_up o
      → Loops space t (subscribed false) late given_up q (close_subscription false o)
  unfolding close_subscription
  closed-ReadAnswered q (returned r w) v p h = (refl, p)
  closed-ReadAnswered q (waiting id w) v p h = h
  closed-ReadAnswered q (hung w) v p h = absurd h

  with_subscription-ReadAnswered :
      {D : Type 0} (subscription : NotifierAnswer) (q : Request) (o : Outcome Found D) (w : World D)
      → validate_template t ≡ ok q.template
      → is_positive (pos q.wait) ≡ true
      → Answered q late given_up o
      → Loops space t subscription late given_up q (with_subscription subscription o w)
  unfolding with_subscription close_subscription
  with_subscription-ReadAnswered (refused e) q o w v p h = refl
  with_subscription-ReadAnswered (subscribed true) q o w v p h =
      loop-ReadAnswered space t (subscribed true) late given_up q o v h
  with_subscription-ReadAnswered (subscribed false) q o w v p h = closed-ReadAnswered q o v p h
  with_subscription-ReadAnswered unanswered q o w v p h = (refl, p)

module _ (pg : Postgres) (limit : ℤ) where
  open pg use {Db}

  read_subscribed-ReadAnswered :
      (space : Text) (t : Template) (subscription : NotifierAnswer) (q : Request)
      (events : List (Wake Db)) (w : World Db)
      → validate_template t ≡ ok q.template
      → Loops space t subscription
          (has_deadline events)
          (has_cancel events)
          q
          (read_subscribed pg limit q subscription events w)
  unfolding read_subscribed
  read_subscribed-ReadAnswered space t subscription q events w v =
      let late = has_deadline events in
      let given_up = has_cancel events in
      let looped = read_loop-Answered pg limit q events none w in
      elim (Bool-cases (q.wait == 0)) [
        | inl e ↦ rw e (loop-ReadAnswered space t subscription late given_up q _ v looped)
        | inr e ↦ rw e (
            with_subscription-ReadAnswered space t late given_up subscription q _ w v
              (positive q.wait e) looped)
      ]

  read_accepted-ReadAnswered :
      (destructive : Bool) (space : Text) (t : Template)
      (accepted : Result Validation.Error Template) (wait : ℤ) (now : ℕ)
      (subscription : NotifierAnswer) (events : List (Wake Db)) (w : World Db)
      → (validate_space space >> validate_template t) ≡ accepted
      → ReadAnswered space t wait subscription (has_deadline events) (has_cancel events) (
          read_accepted pg limit destructive space
            (wrap invalid accepted)
            wait
            now
            subscription
            events
            w)
  unfolding read_accepted
  read_accepted-ReadAnswered destructive space t (err e) wait now subscription events w h = h
  read_accepted-ReadAnswered destructive space t (ok n) (negsuc m) now subscription events w h =
      (m, refl)
  read_accepted-ReadAnswered destructive space t (ok n) (pos wait) now subscription events w h =
      let (e, v) = >>-eq-ok (validate_space space) _ h in
      read_subscribed-ReadAnswered space t subscription _ events w v

  -- A read, for any wait and any answer of the notifier, returns as soon as it sees its deadline or its
  -- caller's cancellation, unless its wait is positive and the notifier leaves its `Subscribe` or the
  -- `Close` of its subscription without an answer. Where it returns: a tuple matches the accepted
  -- template under the bindings that come with it; "not found" means a wait of 0, a timeout that the
  -- deadline passed, and a cancellation that the caller gave up; the error of a negative wait means
  -- one, an invalid request that the validation refuses with that error, and the notifier's error that
  -- `Subscribe` gave it; and any other error is one of the database.
  pub read-ReadAnswered :
      (destructive : Bool) (space : Text) (t : Template) (wait : ℤ) (now : ℕ)
      (subscription : NotifierAnswer) (events : List (Wake Db)) (w : World Db)
      → ReadAnswered space t wait subscription
          (has_deadline events)
          (has_cancel events)
          (read pg limit destructive space t wait now subscription events w)
  unfolding read
  read-ReadAnswered destructive space t wait now subscription events w =
      read_accepted-ReadAnswered destructive space t (validate_space space >> validate_template t)
        wait now subscription events w refl
