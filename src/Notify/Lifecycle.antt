-- ===== src/Notify/Lifecycle.antt =====
-- The notifier over its whole life (internal/notify/notifier.go).
use tuplespace.Base.{ℕ, inl, inr, Bool, true, false, List, [], ◌∷◌, Text, if◌then◌else◌, Bool-cases}
use tuplespace.Notify.{
  State, Outcome, done, failed, panic, has_id, subscribe, unsubscribe, close_request,
  deliver_notification,
}
use tuplespace.Notify.Invariant.{Inv, init-Inv}
use tuplespace.Notify.Preserved.{AfterSubscribe, subscribe-Inv}
use tuplespace.Notify.Closing.{AfterUnsubscribe, unsubscribe-Inv}
use tuplespace.Notify.Delivery.{deliver_notification_lem, deliver-Inv}
use tuplespace.Notify.Loop.{
  Loop, running, returned, crashed, next_round, after_request, System, Event, subscribes,
  unsubscribes, notified, closes, after_subscribe, on_running, on_loop, step, run, start,
}

-- The loop has not panicked, and while it runs its state is sound.
abbrev pub IsSound : List ℕ → Loop → Type 0
IsSound hs (running st) = Inv hs st
IsSound hs returned = Unit
IsSound hs crashed = ⊥

next_round-IsSound : (hs : List ℕ) (st : State) → Inv hs st → IsSound hs (next_round st)
next_round-IsSound hs st v = go st.closed
  where
    go : (b : Bool) → IsSound hs (if b then returned else running st)
    go true = tt
    go false = v

module _ (hs : List ℕ) where
  after_subscribe-IsSound :
      (p : ℕ) (o : Outcome)
      → AfterSubscribe hs p o
      → IsSound (after_subscribe hs p o).handles (after_subscribe hs p o).loop
  unfolding after_subscribe
  after_subscribe-IsSound p (done st) v = next_round-IsSound (p ∷ hs) st v
  after_subscribe-IsSound p (failed st e) v = next_round-IsSound hs st v
  after_subscribe-IsSound p panic v = absurd v

  after_request-IsSound : (o : Outcome) → AfterUnsubscribe hs o → IsSound hs (after_request o).0
  after_request-IsSound (done st) v = next_round-IsSound hs st v
  after_request-IsSound (failed st e) v = next_round-IsSound hs st v
  after_request-IsSound panic v = absurd v

  deliver-AfterUnsubscribe :
      (ch : Text) (st : State) → Inv hs st → AfterUnsubscribe hs (deliver_notification ch st)
  deliver-AfterUnsubscribe ch st v =
      let (h', found, all) = deliver_notification_lem ch st v in
      rw found (deliver-Inv ch st h' v all)

  on_running-IsSound :
      (e : Event) (st : State)
      → Inv hs st
      → IsSound (on_running e st hs).handles (on_running e st hs).loop
  unfolding on_running
  on_running-IsSound (subscribes ch listened) st v =
      after_subscribe-IsSound st.next (subscribe ch listened st) (subscribe-Inv ch st v listened)
  on_running-IsSound (unsubscribes p unlistened) st v = elim (Bool-cases (has_id p hs)) [
    | inl h ↦
        rw h (
          after_request-IsSound (unsubscribe p unlistened st) (unsubscribe-Inv p unlistened st v h))
    | inr n ↦ rw n v
  ]
  on_running-IsSound (notified ch) st v =
      after_request-IsSound (deliver_notification ch st) (deliver-AfterUnsubscribe ch st v)
  on_running-IsSound closes st v = unfold close_request in tt

step-IsSound :
    (s : System) (e : Event) → IsSound s.handles s.loop → IsSound (step s e).handles (step s e).loop
unfolding step
step-IsSound s e v = go s.loop v
  where
    go :
        (l : Loop)
        → IsSound s.handles l
        → IsSound (on_loop e l s.handles).handles (on_loop e l s.handles).loop
    go (running st) w = on_running-IsSound s.handles e st w
    go returned w = tt
    go crashed w = absurd w

run-IsSound :
    (s : System) (es : List Event)
    → IsSound s.handles s.loop
    → IsSound (run s es).handles (run s es).loop
unfolding run
run-IsSound s [] v = v
run-IsSound s (e ∷ es) v = run-IsSound (step s e) es (step-IsSound s e v)

-- Whatever is called and notified, in any order and with any failures of the statements, the loop
-- never sends on or closes a closed channel, and while it runs the reference counts are the numbers of
-- open subscriptions.
pub run-start-IsSound : (es : List Event) → IsSound (run start es).handles (run start es).loop
run-start-IsSound es = run-IsSound start es init-Inv
