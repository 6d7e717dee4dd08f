-- ===== src/Tests/Notifier.antt =====
-- The notifier: internal/notify/notifier.go.
use tuplespace.Base.{ℕ, ◌≡◌, refl, true, false, List, [], ◌∷◌, Text, codes, length, arith, text_eq}
use tuplespace.Base.Maps.{get, put, remove}
use tuplespace.Notify.{
  State, Outcome, done, failed, panic, has_id, add_id, subs, subscribe, unsubscribe,
  deliver_notification, close_request, init,
}
use tuplespace.Notify.Channel.{channel_name, IsIdentifier, channel_name-IsIdentifier}
use tuplespace.Notify.Invariant.{Inv, init-Inv}
use tuplespace.Notify.Preserved.{subscribe-Inv}
use tuplespace.Notify.Delivery.{Heap, woken, deliver_notification_lem}
use tuplespace.Notify.Loop.{
  Event, returned, execute, close, subscribes, unsubscribes, notified, closes, run, start, step,
}
use tuplespace.Notify.Lifecycle.{IsSound, run-start-IsSound}

abbrev sha1_stub : Text → List ℕ
sha1_stub s = 0 ∷ 17 ∷ 34 ∷ 51 ∷ 68 ∷ 85 ∷ 102 ∷ 255 ∷ 1 ∷ []

channel_name-IsIdentifier_example :
    IsIdentifier (channel_name sha1_stub (codes "jobs"))
    × (length (channel_name sha1_stub (codes "jobs")) ≡ 27)
channel_name-IsIdentifier_example =
    channel_name-IsIdentifier sha1_stub (codes "jobs") (omega arith) (omega arith)

abbrev state_of : Outcome → State
state_of (done st) = st
state_of (failed st e) = st
state_of panic = init

-- One subscription of channel "a", at 0.
abbrev one : State
one = state_of (subscribe (codes "a") true init)

one-Inv : Inv (0 ∷ []) one
unfolding subscribe get
one-Inv = subscribe-Inv (codes "a") init init-Inv true

deliver_notification_lem_example :
    (h' : Heap) × (deliver_notification (codes "a") one ≡ done (record one { heap = h' }))
    × ((q : ℕ) → h' q ≡ woken (subs one (codes "a")) one.heap q)
deliver_notification_lem_example = deliver_notification_lem (codes "a") one one-Inv

abbrev history : List Event
history =
    subscribes (codes "a") true
    ∷ subscribes (codes "b") false
    ∷ notified (codes "a")
    ∷ unsubscribes 0 false
    ∷ unsubscribes 0 true
    ∷ closes
    ∷ []

run-start-IsSound_example : IsSound (run start history).handles (run start history).loop
run-start-IsSound_example = run-start-IsSound history

history_ends : (run start history).loop ≡ returned
unfolding run step subscribe unsubscribe deliver_notification close_request execute close get put
    remove add_id has_id text_eq
history_ends = refl
