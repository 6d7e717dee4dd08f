-- ===== src/Notify.antt =====
-- internal/notify/notifier.go: the state that the notifier's loop owns, the requests that it applies
-- to it, and the delivery of a notification. Whether a `LISTEN` or `UNLISTEN` statement succeeds is
-- an argument of the request that sends it.
pub mod Channel
pub mod Invariant
pub mod Preserved
pub mod Closing
pub mod Delivery
pub mod Loop
pub mod Lifecycle
use tuplespace.Base.{
  ℕ, suc, ◌+◌, ◌-◌, Bool, true, false, ◌&&◌, ◌||◌, not, Option, none, some, List, [], ◌∷◌, Text,
  ◌==◌, length, keep, is_empty, if◌then◌else◌, Result, ok, err,
}
use tuplespace.Base.Maps.{Map, get, put, remove}

-- A `*subscription`: `pending` is the one slot of the buffer of `ch`, `shut` says that `ch` is closed.
pub record Subscription : Type 0 where
  pub channel : Text
  pub closed : Bool
  pub pending : Bool
  pub shut : Bool

-- The pointers to subscriptions are numbers: `heap` is what they point to, and `next` is not in use.
pub record State : Type 0 where
  pub ref_counts : Map ℕ
  pub subscribers : Map (List ℕ)
  pub closed : Bool
  pub heap : ℕ → Subscription
  pub next : ℕ

abbrev pub update : (ℕ → Subscription) → ℕ → Subscription → ℕ → Subscription
update h p s q = if p == q then s else h q

-- st.refCounts[channel] and st.subscribers[channel], with the zero value for a missing key
abbrev pub or_zero : Option ℕ → ℕ
or_zero none = 0
or_zero (some n) = n

abbrev pub or_nil : Option (List ℕ) → List ℕ
or_nil none = []
or_nil (some l) = l

abbrev pub ref_count : State → Text → ℕ
ref_count st ch = or_zero (get ch st.ref_counts)

abbrev pub subs : State → Text → List ℕ
subs st ch = or_nil (get ch st.subscribers)

pub data Error : Type 0 where
  listen_failed unlisten_failed : Text → Error

-- What a request leaves behind: the state and its error, or a panic of the loop.
pub data Outcome : Type 0 where
  done : State → Outcome
  failed : State → Error → Outcome
  panic : Outcome

unfoldable pub has_id : ℕ → List ℕ → Bool
has_id p [] = false
has_id p (q ∷ qs) = (q == p) || has_id p qs

-- st.subscribers[channel][sub] = struct{}{}
unfoldable pub add_id : ℕ → List ℕ → List ℕ
unfolding has_id
add_id p l = if has_id p l then l else p ∷ l

-- `if st.subscribers[channel] == nil { st.subscribers[channel] = map… }`
abbrev pub with_set : Text → Option (List ℕ) → State → State
with_set ch (some l) st = st
with_set ch none st = record st { subscribers = put ch [] st.subscribers }

pub join : Text → ℕ → State → State
unfolding add_id
join ch p st = record st {
  ref_counts = put ch (ref_count st ch + 1) st.ref_counts;
  subscribers = put ch (add_id p (subs st ch)) st.subscribers;
}

-- The request of `Subscribe`, for the new subscription at `p`.
pub subscribe_request : Text → ℕ → Bool → State → Outcome
unfolding join
subscribe_request ch p listened st =
    let ready = with_set ch (get ch st.subscribers) st in
    if (ref_count ready ch == 0) && not listened
    then failed ready (listen_failed ch)
    else done (join ch p ready)

-- `Subscribe` allocates the subscription, at `st.next`, and makes the request.
unfoldable pub subscribe : Text → Bool → State → Outcome
unfolding subscribe_request
subscribe ch listened st =
    let sub : Subscription = record {
      channel = ch;
      closed = false;
      pending = false;
      shut = false;
    } in
    subscribe_request ch st.next listened
      (record st { heap = update st.heap st.next sub; next = st.next + 1 })

pub without_id : ℕ → List ℕ → List ℕ
without_id p = keep (λ q. not (q == p))

-- `delete(subs, sub)`, and the whole set if it is empty then. On a nil map `delete` does nothing.
abbrev pub store_set : Text → List ℕ → Map (List ℕ) → Map (List ℕ)
store_set ch [] m = remove ch m
store_set ch (q ∷ qs) m = put ch (q ∷ qs) m

-- `if st.refCounts[…] > 0 { st.refCounts[…]-- }`, and the key is deleted at zero.
abbrev pub store_count : Text → ℕ → Map ℕ → Map ℕ
store_count ch n m = if n == 0 then remove ch m else put ch n m

pub leave : Text → ℕ → State → State
unfolding without_id
leave ch p st = record st {
  subscribers = store_set ch (without_id p (subs st ch)) st.subscribers;
  ref_counts = store_count ch (ref_count st ch - 1) st.ref_counts;
  heap = update st.heap p (record (st.heap p) { closed = true });
}

-- The state that `New` starts the loop with.
abbrev pub init : State
init = record {
  ref_counts = [];
  subscribers = [];
  closed = false;
  heap = λ p. record { channel = []; closed = true; pending = false; shut = true };
  next = 0;
}

-- close(sub.ch)
pub shut_channel : ℕ → State → Outcome
shut_channel p st =
    let s = st.heap p in
    if s.shut
    then panic
    else done (record st { heap = update st.heap p (record s { shut = true }) })

-- The request of `unsubscribe`.
unfoldable pub unsubscribe : ℕ → Bool → State → Outcome
unfolding leave shut_channel
unsubscribe p unlistened st =
    let ch = (st.heap p).channel in
    if st.closed || (st.heap p).closed
    then done st
    else if (ref_count st ch - 1 == 0) && not unlistened
    then failed (leave ch p st) (unlisten_failed ch)
    else shut_channel p (leave ch p st)

-- The request of `Close`.
unfoldable pub close_request : State → Outcome
close_request st = done (record st { closed = true })

-- One round of the loop of `deliverNotification`: the send drops the value if the buffer is full, and
-- panics if the channel is closed.
deliver_to : ℕ → (ℕ → Subscription) → Option (ℕ → Subscription)
deliver_to p h =
    let s = h p in if s.shut then none else some (update h p (record s { pending = true }))

deliver_all : List ℕ → (ℕ → Subscription) → Option (ℕ → Subscription)
unfolding deliver_to
deliver_all [] h = some h
deliver_all (p ∷ ps) h = elim (deliver_to p h) [ none ↦ none | some h' ↦ deliver_all ps h' ]

abbrev delivered : State → Option (ℕ → Subscription) → Outcome
delivered st none = panic
delivered st (some h) = done (record st { heap = h })

unfoldable pub deliver_notification : Text → State → Outcome
unfolding deliver_all
deliver_notification ch st = delivered st (deliver_all (subs st ch) st.heap)

pub record Snapshot : Type 0 where
  pub channel_count : ℕ
  pub subscriber_count : ℕ
  pub channels : Map ℕ

abbrev channel_sizes : Map (List ℕ) → Map ℕ
channel_sizes [] = []
channel_sizes ((ch, l) ∷ m) = (ch, length l) ∷ channel_sizes m

abbrev total : Map ℕ → ℕ
total [] = 0
total ((ch, n) ∷ m) = n + total m

unfoldable pub snapshot : State → Snapshot
snapshot st =
    let sizes = channel_sizes st.subscribers in
    record { channel_count = length sizes; subscriber_count = total sizes; channels = sizes }
