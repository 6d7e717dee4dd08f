-- ===== src/Migrations.antt =====
-- internal/migrations/migrations.go: which files of a directory are applied to the database, and in
-- which order. Reading the directory and the files and executing SQL are parameters.
pub mod Applied
pub mod Executed
use tuplespace.Base.{
  Bool, true, false, ◌||◌, not, Option, none, some, List, [], ◌∷◌, map, reverse, Text, codes,
  text_eq, cut_prefix, if◌then◌else◌, Result, ok, err, ◌>>=◌, or_fail,
}
use tuplespace.Service.Schema.{text_before}

-- An entry of a directory.
pub record DirEntry : Type 0 where
  pub name : Text
  pub is_dir : Bool

pub data Error : Type 0 where
  read_directory_failed : Error
  read_migration_failed apply_failed : Text → Error

abbrev is_some {ℓ} : {A : Type ℓ} → Option A → Bool
is_some none = false
is_some (some a) = true

-- strings.HasSuffix
unfoldable pub has_suffix : Text → Text → Bool
unfolding cut_prefix
has_suffix s suffix = is_some (cut_prefix (reverse suffix) (reverse s))

unfoldable pub insert_entry : DirEntry → List DirEntry → List DirEntry
unfolding text_before
insert_entry e [] = e ∷ []
insert_entry e (f ∷ fs) =
    let rest = insert_entry e fs in if text_before f.name e.name then f ∷ rest else e ∷ f ∷ fs

-- sort.Slice by name; the names of a directory are different.
unfoldable pub sort_entries : List DirEntry → List DirEntry
unfolding insert_entry
sort_entries [] = []
sort_entries (e ∷ es) = insert_entry e (sort_entries es)

-- The loop that filters: files whose names end in ".sql".
unfoldable pub filter_entries : List DirEntry → List DirEntry
unfolding has_suffix
filter_entries [] = []
filter_entries (e ∷ es) =
    let rest = filter_entries es in
    if e.is_dir || not (has_suffix e.name (codes ".sql")) then rest else e ∷ rest

unfoldable pub list_entries : Option (List DirEntry) → Result Error (List DirEntry)
unfolding sort_entries filter_entries
list_entries directory = do
  entries ← or_fail read_directory_failed directory
  ok (filter_entries (sort_entries entries))

unfoldable pub list_fs : Option (List DirEntry) → Result Error (List Text)
unfolding list_entries
list_fs directory = do entries ← list_entries directory; ok (map (λ e. e.name) entries)

module _ {D : Type 0} (read_file : Text → Option Text) (exec : Text → D → Option D) where
  after_exec : Text → D → (D → Result Error (Unit {0}) × D) → Option D → Result Error (Unit {0}) × D
  after_exec name db next none = (err (apply_failed name), db)
  after_exec name db next (some db') = next db'

  after_read :
      Text → D → (D → Result Error (Unit {0}) × D) → Option Text → Result Error (Unit {0}) × D
  unfolding after_exec
  after_read name db next none = (err (read_migration_failed name), db)
  after_read name db next (some body) = after_exec name db next (exec body db)

  -- The loop over the files, with the database that it leaves.
  unfoldable pub apply_entries : List DirEntry → D → Result Error (Unit {0}) × D
  unfolding after_read
  apply_entries [] db = (ok tt, db)
  apply_entries (e ∷ es) db = after_read e.name db (λ db'. apply_entries es db') (read_file e.name)

  apply_listed : D → Result Error (List DirEntry) → Result Error (Unit {0}) × D
  unfolding apply_entries
  apply_listed db (err e) = (err e, db)
  apply_listed db (ok entries) = apply_entries entries db

  unfoldable pub apply_fs : Option (List DirEntry) → D → Result Error (Unit {0}) × D
  unfolding apply_listed
  apply_fs directory db = apply_listed db (list_entries directory)
