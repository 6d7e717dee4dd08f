-- ===== src/Config.antt =====
-- internal/config/config.go: the server's settings. The environment is a function, with "" for a
-- variable that is not set; `parse_duration` is `time.ParseDuration`.
use tuplespace.Base.{
  or_fail, ◌≡◌, false, Option, Text, codes, is_empty, ℤ, pos, not_positive, Result, ok, ◌>>=◌, ◌>>◌,
  fail_if, fail_if-eq-ok, >>=-eq-ok, >>-eq-ok, ok-injective, if◌then◌else◌,
}
use tuplespace.Strconv.{parse_int}

-- A duration is a number of nanoseconds.
pub record Config : Type 0 where
  pub http_listen_addr : Text
  pub database_url : Text
  pub candidate_limit : ℤ
  pub shutdown_grace : ℤ

pub data Error : Type 0 where
  bad_limit bad_grace no_database_url limit_not_positive grace_not_positive : Error

unfoldable pub validate : Config → Result Error (Unit {0})
validate cfg = do
  fail_if (is_empty cfg.database_url) no_database_url
  fail_if (not_positive cfg.candidate_limit) limit_not_positive
  fail_if (not_positive cfg.shutdown_grace) grace_not_positive

module _ (env : Text → Text) (parse_duration : Text → Option ℤ) where
  abbrev default_env : Text → Text → Text
  default_env key fallback = if is_empty (env key) then fallback else env key

  unfoldable pub defaults_from_env : Config
  defaults_from_env = record {
    http_listen_addr = default_env (codes "TUPLESPACE_HTTP_LISTEN_ADDR") (codes ":8080");
    database_url = env (codes "TUPLESPACE_DATABASE_URL");
    candidate_limit = pos 64;
    shutdown_grace = pos 10000000000;
  }

  -- The two `if raw := …; raw != "" { … }`
  with_limit : Text → Config → Result Error Config
  with_limit raw cfg =
      let parsed = or_fail bad_limit (parse_int raw) in
      if is_empty raw then ok cfg else (do n ← parsed; ok (record cfg { candidate_limit = n }))

  with_grace : Text → Config → Result Error Config
  with_grace raw cfg =
      let parsed = or_fail bad_grace (parse_duration raw) in
      if is_empty raw then ok cfg else (do d ← parsed; ok (record cfg { shutdown_grace = d }))

  -- The settings, and whether they are valid.
  unfoldable pub load_from_env : Result Error Config
  unfolding with_limit with_grace
  load_from_env = do
    limited ← with_limit (env (codes "TUPLESPACE_CANDIDATE_LIMIT")) defaults_from_env
    cfg ← with_grace (env (codes "TUPLESPACE_SHUTDOWN_GRACE")) limited
    validate cfg
    ok cfg

-- Settings that the server can run with.
abbrev pub IsUsable : Config → Type 0
IsUsable cfg =
    (is_empty cfg.database_url ≡ false)
    × (not_positive cfg.candidate_limit ≡ false)
    × (not_positive cfg.shutdown_grace ≡ false)

validate-IsUsable : (cfg : Config) → validate cfg ≡ ok tt → IsUsable cfg
unfolding validate
validate-IsUsable cfg h =
    let (a, h₁) = >>-eq-ok (fail_if (is_empty cfg.database_url) no_database_url) _ h in
    let (b, c) = >>-eq-ok (fail_if (not_positive cfg.candidate_limit) limit_not_positive) _ h₁ in
    (fail_if-eq-ok _ _ a, fail_if-eq-ok _ _ b, fail_if-eq-ok _ _ c)

module _ (env : Text → Text) (parse_duration : Text → Option ℤ) where
  -- Settings that are loaded without an error name a database, with a positive candidate limit and a
  -- positive time for the shutdown.
  pub load_from_env-IsUsable :
      (cfg : Config) → load_from_env env parse_duration ≡ ok cfg → IsUsable cfg
  unfolding load_from_env
  load_from_env-IsUsable cfg h =
      let (limited, e₁, h₁) =
        >>=-eq-ok (with_limit env parse_duration (env (codes "TUPLESPACE_CANDIDATE_LIMIT")) _) _
          h in
      let (c, e₂, h₂) =
        >>=-eq-ok (with_grace env parse_duration (env (codes "TUPLESPACE_SHUTDOWN_GRACE")) limited)
          _ h₁ in
      let (v, e₃) = >>-eq-ok (validate c) (ok c) h₂ in
      rw (← ok-injective e₃) (validate-IsUsable c v)
