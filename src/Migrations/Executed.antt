-- ===== src/Migrations/Executed.antt =====
-- What `ApplyFS` executes (internal/migrations/migrations.go).
use tuplespace.Base.{
  ◌≡◌, refl, ap, Option, none, some, List, [], ◌∷◌, ◌++◌, ◌⊎◌, Text, Result, ok, err, inl, inr,
  Option-cases,
}
use tuplespace.Migrations
use tuplespace.Migrations.{
  DirEntry, read_directory_failed, read_migration_failed, apply_failed, list_entries, apply_entries,
  apply_fs, after_read, after_exec, apply_listed,
}

module _ {D : Type 0} (read_file : Text → Option Text) (exec : Text → D → Option D) where
  -- The files were read and executed, one after the other.
  abbrev pub Executed : List DirEntry → D → D → Type 0
  Executed [] db db' = db' ≡ db
  Executed (e ∷ es) db db' =
      (body : Text) × (m : D) × (read_file e.name ≡ some body)
      × (exec body db ≡ some m)
      × Executed es m db'

  -- Why the loop stops at a file.
  abbrev pub Stops : DirEntry → D → Migrations.Error → Type 0
  Stops e db read_directory_failed = ⊥
  Stops e db (read_migration_failed n) = (n ≡ e.name) × (read_file e.name ≡ none)
  Stops e db (apply_failed n) =
      (n ≡ e.name) × ((body : Text) × (read_file e.name ≡ some body) × (exec body db ≡ none))

  abbrev pub Applied : List DirEntry → D → Result Migrations.Error (Unit {0}) × D → Type 0
  Applied es db (ok u, db') = Executed es db db'
  Applied es db (err x, db') =
      (before after : List DirEntry) × (e : DirEntry) × (es ≡ before ++ e ∷ after)
      × Executed before db db'
      × Stops e db' x

  later :
      (e : DirEntry) (es : List DirEntry) (db m : D) (body : Text)
      (r : Result Migrations.Error (Unit {0}) × D)
      → read_file e.name ≡ some body
      → exec body db ≡ some m
      → Applied es m r
      → Applied (e ∷ es) db r
  later e es db m body (ok u, db') k x h = (body, m, k, x, h)
  later e es db m body (err y, db') k x (before, after, f, split, ran, stops) =
      (e ∷ before, after, f, ap (◌∷◌ e) split, (body, m, k, x, ran), stops)

  apply_entries-Applied :
      (es : List DirEntry) (db : D) → Applied es db (apply_entries read_file exec es db)
  unfolding apply_entries after_read after_exec
  apply_entries-Applied [] db = refl
  apply_entries-Applied (e ∷ es) db = elim (Option-cases (read_file e.name)) [
    | inl k ↦ rw (k, after_read) ([], es, e, refl, refl, (refl, k))
    | inr (body, k) ↦ elim (Option-cases (exec body db)) [
      | inl x ↦
          rw (k, after_read) (rw (x, after_exec) ([], es, e, refl, refl, (refl, (body, k, x))))
      | inr (m, x) ↦
          rw (k, after_read)
            (rw (x, after_exec) (later e es db m body _ k x (apply_entries-Applied es m)))
    ]
  ]

  -- If `ApplyFS` returns without an error, all listed files were executed in their order. If it returns
  -- an error, either the directory could not be read and the database is as it was, or the files before
  -- one were executed and that one could not be read or executed, and the error names it.
  pub apply_fs-Applied :
      (directory : Option (List DirEntry)) (db : D)
      → ((list_entries directory ≡ err read_directory_failed)
          × (apply_fs read_file exec directory db ≡ (err read_directory_failed, db)))
        ⊎ ((es : List DirEntry) × (list_entries directory ≡ ok es)
            × Applied es db (apply_fs read_file exec directory db))
  unfolding apply_fs apply_listed list_entries
  apply_fs-Applied none db = inl (refl, refl)
  apply_fs-Applied (some es) db = inr (_, refl, apply_entries-Applied _ db)
