-- ===== src/Server.antt =====
-- The server program (cmd/tuplespaced/main.go): the settings of the command, and the order in which
-- things are opened, used and closed. What they do outside the program is a parameter, the `Host`.
-- `ListenAndServe` returns once `Shutdown` is called, not when it is done: requests may still be in
-- flight, and `runServer` does not wait for the goroutine that runs `Shutdown`.
pub mod Closes
use tuplespace.Base.{
  ℕ, Bool, true, false, Option, none, some, List, [], ◌∷◌, ◌++◌, Text, ℤ, Result, ok, err, ◌>>=◌,
  or_fail, wrap,
}
use tuplespace.Config
use tuplespace.Config.{Config, validate}
use tuplespace.Migrations
use tuplespace.Migrations.{DirEntry, apply_fs, list_fs}

pub record ServerSettings : Type 0 where
  pub http_listen_addr : Text
  pub database_url : Text
  pub candidate_limit : ℤ
  pub shutdown_grace : Text

-- How `ListenAndServe` ends: on the call of `Shutdown`, or by itself; and how many requests it leaves
-- in flight.
pub data ServeEnd : Type 0 where
  server_closed serve_failed : (in_flight : ℕ) → ServeEnd

-- The contents of the database are `D`.
pub record Host (D : Type 0) : Type 0 where
  pub parse_duration : Text → Option ℤ
  pub new_pool : Text → Option D
  pub directory : Option (List DirEntry)
  pub read_file : Text → Option Text
  pub exec : Text → D → Option D
  pub new_notifier : Text → Bool
  pub listen_and_serve : Text → D → ServeEnd

pub data Error : Type 0 where
  bad_duration pool_failed notifier_failed listen_failed : Error
  bad_config : Config.Error → Error
  migration_failed : Migrations.Error → Error

-- What is held until its deferred call.
pub data Resource : Type 0 where
  signals pool notifier : Resource

pub data Action : Type 0 where
  opened closed : Resource → Action
  migrated serving : Action
  left_in_flight : ℕ → Action

-- The result, and what was done in its order.
abbrev pub Done : Type 0
Done = Result Error (Unit {0}) × List Action

-- `defer`: the resource is closed behind whatever follows.
abbrev pub holding : Resource → Done → Done
holding r (result, actions) = (result, opened r ∷ actions ++ closed r ∷ [])

abbrev pub after : Action → Done → Done
after a (result, actions) = (result, a ∷ actions)

module _ {D : Type 0} (host : Host D) where
  serve_end : ServeEnd → Done
  serve_end (server_closed n) = (ok tt, serving ∷ left_in_flight n ∷ [])
  serve_end (serve_failed n) = (err listen_failed, serving ∷ left_in_flight n ∷ [])

  serve_with : Config → D → Bool → Done
  unfolding serve_end
  serve_with cfg db false = (err notifier_failed, [])
  serve_with cfg db true =
      holding notifier (serve_end (host.listen_and_serve cfg.http_listen_addr db))

  with_files : Config → D → Result Migrations.Error (List Text) → Done
  unfolding serve_with
  with_files cfg db (err e) = (err (migration_failed e), [])
  with_files cfg db (ok files) = serve_with cfg db (host.new_notifier cfg.database_url)

  with_migrations : Config → Result Migrations.Error (Unit {0}) × D → Done
  unfolding with_files
  with_migrations cfg (err e, db) = (err (migration_failed e), [])
  with_migrations cfg (ok u, db) = after migrated (with_files cfg db (list_fs host.directory))

  with_pool : Config → Option D → Done
  unfolding with_migrations
  with_pool cfg none = (err pool_failed, [])
  with_pool cfg (some db) =
      holding pool (with_migrations cfg (apply_fs host.read_file host.exec host.directory db))

  unfoldable pub run_server : Config → Done
  unfolding with_pool
  run_server cfg = holding signals (with_pool cfg (host.new_pool cfg.database_url))

  run_with : Result Error Config → Done
  unfolding run_server
  run_with (err e) = (err e, [])
  run_with (ok cfg) = run_server cfg

  settings_of : ServerSettings → Result Error Config
  settings_of s = do
    grace ← or_fail bad_duration (host.parse_duration s.shutdown_grace)
    let cfg : Config = record {
      http_listen_addr = s.http_listen_addr;
      database_url = s.database_url;
      candidate_limit = s.candidate_limit;
      shutdown_grace = grace;
    }
    u ← wrap bad_config (validate cfg)
    ok cfg

  unfoldable pub run : ServerSettings → Done
  unfolding run_with settings_of
  run s = run_with (settings_of s)
