-- ===== src/Server/Closes.antt =====
-- The server closes what it opened (cmd/tuplespaced/main.go).
use tuplespace.Base.{
  ℕ, ◌≡◌, Bool, true, false, Option, none, some, List, [], ◌∷◌, if◌then◌else◌, Text, ok, err,
}
use tuplespace.Config.{Config}
use tuplespace.Migrations
use tuplespace.Migrations.{apply_fs}
use tuplespace.Server.{
  listen_failed, ServeEnd, server_closed, serve_failed, Host, Resource, signals, pool, notifier,
  Action, opened, closed, migrated, serving, left_in_flight, Done,
}

abbrev same : Resource → Resource → Bool
same signals signals = true
same pool pool = true
same notifier notifier = true
same _ _ = false

-- What is held, the last opened first; whether the migrations were applied; the requests in flight;
-- and each resource that was closed, with the requests that were in flight then, the last first.
pub record Held : Type 0 where
  pub open_now : List Resource
  pub is_migrated : Bool
  pub in_flight : ℕ
  pub closed_under : List (Resource × ℕ)

abbrev pub nothing_held : Held
nothing_held = record { open_now = []; is_migrated = false; in_flight = 0; closed_under = [] }

-- One action: only what was opened last may be closed, migrations need the pool, and serving needs the
-- migrations, the pool and the notifier.
abbrev close_last : Resource → List Resource → Held → Option Held
close_last r [] h = none
close_last r (q ∷ rs) h =
    if same q r
    then some (record h { open_now = rs; closed_under = (r, h.in_flight) ∷ h.closed_under })
    else none

abbrev migrate : List Resource → Held → Option Held
migrate (pool ∷ rs) h = some (record h { is_migrated = true })
migrate _ h = none

abbrev serve : List Resource → Bool → Held → Option Held
serve (notifier ∷ pool ∷ rs) true h = some h
serve _ _ h = none

abbrev pub act : Action → Held → Option Held
act (opened r) h = some (record h { open_now = r ∷ h.open_now })
act (closed r) h = close_last r h.open_now h
act migrated h = migrate h.open_now h
act serving h = serve h.open_now h.is_migrated h
act (left_in_flight n) h = some (record h { in_flight = n })

abbrev and_then : Option Held → (Held → Option Held) → Option Held
and_then none f = none
and_then (some h) f = f h

abbrev pub replay : List Action → Held → Option Held
replay [] h = some h
replay (a ∷ later) h = and_then (act a h) (λ h'. replay later h')

abbrev pub serves : List Action → Bool
serves [] = false
serves (serving ∷ later) = true
serves (_ ∷ later) = serves later

-- The requests that `ListenAndServe` leaves in flight.
abbrev pub remaining : ServeEnd → ℕ
remaining (server_closed n) = n
remaining (serve_failed n) = n

-- All that was opened, closed under this number of requests in flight.
abbrev pub closed_with : ℕ → Held
closed_with n = record {
  open_now = [];
  is_migrated = true;
  in_flight = n;
  closed_under = (signals, n) ∷ (pool, n) ∷ (notifier, n) ∷ [];
}

module _ {D : Type 0} (host : Host D) where
  -- The database that is served: that of the pool, with the migrations applied.
  abbrev pub Served : Text → D → Type 0
  Served url db =
      (before : D) × (host.new_pool url ≡ some before)
      × (apply_fs host.read_file host.exec host.directory before ≡ (ok tt, db))

  -- The server has served, and closed all under the requests that were left in flight.
  abbrev pub EndsServing : (addr url : Text) → List Action → Type 0
  EndsServing addr url actions =
      (serves actions ≡ true)
      × ((db : D) × Served url db
          × (replay actions nothing_held
              ≡ some (closed_with (remaining (host.listen_and_serve addr db)))))

  -- It does so without an error, and with that of `ListenAndServe`; with another error it has not served
  -- and holds nothing.
  abbrev pub Ends : (addr url : Text) → Done → Type 0
  Ends addr url (ok u, actions) = EndsServing addr url actions
  Ends addr url (err listen_failed, actions) = EndsServing addr url actions
  Ends addr url (err e, actions) =
      (serves actions ≡ false)
      × ((h : Held) × (replay actions nothing_held ≡ some h) × (h.open_now ≡ []))
