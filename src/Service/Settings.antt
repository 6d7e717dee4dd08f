-- ===== src/Service/Settings.antt =====
-- The settings that the administration shows (internal/service/admin.go). net/url is a parameter.
use tuplespace.Base.{◌≡◌, refl, Option, none, some, [], Text, codes, ℤ}
use tuplespace.Http.{trim_prefix}

pub record ConfigSnapshot : Type 0 where
  pub http_listen_addr : Text
  pub database_url : Text
  pub database_host : Text
  pub database_name : Text
  pub candidate_limit : ℤ
  pub shutdown_grace : Text

-- What the code uses of net/url: a parsed URL, its parts, and its text.
pub record Urls : Type 1 where
  pub Url : Type 0
  pub parse : Text → Option Url
  pub hostname : Url → Text
  pub path : Url → Text
  pub username : Url → Option Text
  pub with_user_password : Url → Text → Text → Url
  pub print : Url → Text

module _ (urls : Urls) where
  open urls use {Url, parse, hostname, path, username, with_user_password, print}

  redact : Url → Option Text → Text
  redact u none = print u
  redact u (some name) = print (with_user_password u name (codes "redacted"))

  with_url : ConfigSnapshot → Option Url → ConfigSnapshot
  unfolding redact
  with_url snapshot none = snapshot
  with_url snapshot (some u) = record snapshot {
    database_host = hostname u;
    database_name = trim_prefix (codes "/") (path u);
    database_url = redact u (username u);
  }

  -- `shutdown_grace` is the text of the duration.
  unfoldable pub redacted_config_snapshot : Text → Text → ℤ → Text → ConfigSnapshot
  unfolding with_url
  redacted_config_snapshot listen_addr database_url candidate_limit shutdown_grace =
      with_url
        (record {
          http_listen_addr = listen_addr;
          database_url = codes "<redacted>";
          database_host = [];
          database_name = [];
          candidate_limit = candidate_limit;
          shutdown_grace = shutdown_grace;
        })
        (parse database_url)

  -- Two parsed URLs with a user that are alike but for the password.
  abbrev pub SameButPassword : Url → Url → Type 0
  SameButPassword u v =
      (hostname u ≡ hostname v)
      × (path u ≡ path v)
      × ((name : Text) × (username u ≡ some name)
          × (username v ≡ some name)
          × (with_user_password u name (codes "redacted")
              ≡ with_user_password v name (codes "redacted")))

  -- What is shown does not depend on the password of the user: two URLs that parse to the same parts but
  -- for the password give the same snapshot.
  pub redacted_config_snapshot-SameButPassword :
      (listen_addr a b : Text) (limit : ℤ) (grace : Text) (u v : Url)
      → parse a ≡ some u
      → parse b ≡ some v
      → SameButPassword u v
      → redacted_config_snapshot listen_addr a limit grace
        ≡ redacted_config_snapshot listen_addr b limit grace
  unfolding redacted_config_snapshot with_url redact
  redacted_config_snapshot-SameButPassword listen_addr a b limit grace u v p q
        (host, path', (name, m, n, same)) =
      rw (p, with_url)
        (rw (q, with_url) (rw (m, redact) (rw (n, redact) (rw host (rw path' (rw same refl))))))
