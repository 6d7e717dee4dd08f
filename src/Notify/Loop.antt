-- ===== src/Notify/Loop.antt =====
-- The loop of the notifier and `execute` (internal/notify/notifier.go): requests are applied one at a
-- time, and once a request has set `closed` the loop returns. `controlCh` has no buffer and no other
-- reader, so a request that comes later waits for ever.
use tuplespace.Base.{ℕ, Bool, Option, none, some, List, [], ◌∷◌, Text, if◌then◌else◌}
use tuplespace.Notify.{
  State, Error, Outcome, done, failed, panic, has_id, subscribe, unsubscribe, close_request,
  deliver_notification, init,
}

pub data Loop : Type 0 where
  running : State → Loop
  returned crashed : Loop

pub data Reply : Type 0 where
  answered : Option Error → Reply
  never : Reply

-- `if st.closed { return }` at the head of the loop.
abbrev pub next_round : State → Loop
next_round st = if st.closed then returned else running st

abbrev pub after_request : Outcome → Loop × Reply
after_request (done st) = (next_round st, answered none)
after_request (failed st e) = (next_round st, answered (some e))
after_request panic = (crashed, never)

unfoldable pub execute : (State → Outcome) → Loop → Loop × Reply
execute apply (running st) = after_request (apply st)
execute apply returned = (returned, never)
execute apply crashed = (crashed, never)

-- `Close` returns when the loop has.
unfoldable pub close : Loop → Loop × Reply
unfolding execute
close l = execute close_request l

-- The notifier with the subscriptions that it has handed out.
pub record System : Type 0 where
  pub loop : Loop
  pub handles : List ℕ

-- Calls of the notifier's methods, and notifications from Postgres. A statement's success is part of
-- the call that sends it.
pub data Event : Type 0 where
  subscribes : Text → Bool → Event
  unsubscribes : ℕ → Bool → Event
  notified : Text → Event
  closes : Event

unfoldable pub after_subscribe : List ℕ → ℕ → Outcome → System
after_subscribe hs p (done st) = record { loop = next_round st; handles = p ∷ hs }
after_subscribe hs p (failed st e) = record { loop = next_round st; handles = hs }
after_subscribe hs p panic = record { loop = crashed; handles = hs }

-- A subscription that was not handed out cannot be closed.
unfoldable pub on_running : Event → State → List ℕ → System
unfolding after_subscribe execute close
on_running (subscribes ch listened) st hs = after_subscribe hs st.next (subscribe ch listened st)
on_running (unsubscribes p unlistened) st hs =
    if has_id p hs
    then record { loop = (execute (unsubscribe p unlistened) (running st)).0; handles = hs }
    else record { loop = running st; handles = hs }
on_running (notified ch) st hs = record {
  loop = (after_request (deliver_notification ch st)).0;
  handles = hs;
}
on_running closes st hs = record { loop = (close (running st)).0; handles = hs }

unfoldable pub on_loop : Event → Loop → List ℕ → System
unfolding on_running
on_loop e (running st) hs = on_running e st hs
on_loop e returned hs = record { loop = returned; handles = hs }
on_loop e crashed hs = record { loop = crashed; handles = hs }

unfoldable pub step : System → Event → System
unfolding on_loop
step s e = on_loop e s.loop s.handles

unfoldable pub run : System → List Event → System
run s [] = s
run s (e ∷ es) = run (step s e) es

abbrev pub start : System
start = record { loop = running init; handles = [] }
