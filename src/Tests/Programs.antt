-- ===== src/Tests/Programs.antt =====
-- The server program and what it starts from: internal/migrations, internal/service/admin.go,
-- cmd/tuplespaced/main.go.
use tuplespace.Base.{
  ◌≡◌, ◌⊎◌, refl, true, false, Option, some, List, [], ◌∷◌, ◌++◌, Text, codes, cut_prefix, pos, ok,
  err,
}
use tuplespace.Migrations.{
  DirEntry, read_directory_failed, list_entries, list_fs, apply_fs, sort_entries, filter_entries,
  has_suffix, insert_entry,
}
use tuplespace.Migrations.Applied.{IsAscending, times, migrations_named, list_fs-IsAscending}
use tuplespace.Migrations.Executed.{Applied, apply_fs-Applied}
use tuplespace.Service.Schema.{text_before}
use tuplespace.Service.Settings.{
  Urls, redacted_config_snapshot, redacted_config_snapshot-SameButPassword,
}
use tuplespace.Server.{Host, ServerSettings, server_closed}

abbrev files : List DirEntry
files =
    record { name = codes "002_more.sql"; is_dir = false }
    ∷ record { name = codes "README.md"; is_dir = false }
    ∷ record { name = codes "001_init.sql"; is_dir = false }
    ∷ record { name = codes "000.sql"; is_dir = true }
    ∷ []

abbrev listed : List Text
listed = codes "001_init.sql" ∷ codes "002_more.sql" ∷ []

list_fs_test : list_fs (some files) ≡ ok listed
unfolding list_fs list_entries sort_entries insert_entry filter_entries has_suffix text_before
    cut_prefix
list_fs_test = refl

list_fs-IsAscending_example :
    IsAscending listed × ((n : Text) → times n listed ≡ migrations_named n files)
list_fs-IsAscending_example = list_fs-IsAscending files listed list_fs_test

-- Executing a text is keeping it.
abbrev keep_text : Text → List Text → Option (List Text)
keep_text body db = some (db ++ body ∷ [])

abbrev text_of : Text → Option Text
text_of name = some name

apply_fs-Applied_example :
    ((list_entries (some files) ≡ err read_directory_failed)
      × (apply_fs text_of keep_text (some files) [] ≡ (err read_directory_failed, [])))
    ⊎ ((es : List DirEntry) × (list_entries (some files) ≡ ok es)
        × Applied text_of keep_text es [] (apply_fs text_of keep_text (some files) []))
apply_fs-Applied_example = apply_fs-Applied text_of keep_text (some files) []

-- A URL by its user, its password and its path.
abbrev plain_urls : Urls
plain_urls = record {
  Url = Text × Text × Text;
  parse = λ s. some (codes "tuplespace", s, codes "/tuples");
  hostname = λ u. codes "localhost";
  path = λ u. u.2;
  username = λ u. some u.0;
  with_user_password = λ u name password. (name, password, u.2);
  print = λ u. u.0 ++ b':' ∷ u.1 ++ u.2;
}

redacted_config_snapshot-SameButPassword_example :
    redacted_config_snapshot plain_urls (codes ":8080") (codes "secret") (pos 64) (codes "10s")
    ≡ redacted_config_snapshot plain_urls (codes ":8080") (codes "other") (pos 64) (codes "10s")
redacted_config_snapshot-SameButPassword_example =
    redacted_config_snapshot-SameButPassword plain_urls (codes ":8080") (codes "secret")
      (codes "other") (pos 64) (codes "10s") (codes "tuplespace", codes "secret", codes "/tuples")
      (codes "tuplespace", codes "other", codes "/tuples") refl refl
      (refl, refl, (codes "tuplespace", refl, refl, refl))

abbrev small_host : Host (List Text)
small_host = record {
  parse_duration = λ s. some (pos 10000000000);
  new_pool = λ url. some [];
  directory = some files;
  read_file = text_of;
  exec = keep_text;
  new_notifier = λ url. true;
  listen_and_serve = λ address db. server_closed 2;
}

abbrev settings : ServerSettings
settings = record {
  http_listen_addr = codes ":8080";
  database_url = codes "postgres://localhost/tuples";
  candidate_limit = pos 64;
  shutdown_grace = codes "10s";
}
