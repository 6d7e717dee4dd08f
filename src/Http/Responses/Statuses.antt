-- ===== src/Http/Responses/Statuses.antt =====
-- What a status says of the database (internal/api/httpapi/handlers.go, admin_handlers.go).
use tuplespace.Base.{
  ℕ, ◌≡◌, ◌≤◌, ◌⊎◌, inl, inr, refl, sym, ◌∙◌, Bool, true, false, some, List, Text, ℤ, Result, ok,
  err, Result-cases, Bool-cases, arith,
}
use tuplespace.Types.{Tuple}
use tuplespace.Store.Database.{Postgres}
use tuplespace.Store.Filters.{TupleFilter}
use tuplespace.Service.{Error, not_found, timeout, canceled, invalid, out}
use tuplespace.Service.Admin.{DeleteResult, delete_tuple}
use tuplespace.Service.Once.{Faithful, has_id, without_id}
use tuplespace.Service.Deletes.{delete_tuple-Deleted}
use tuplespace.Http.Responses.{
  refused, map_error, write_mapped_error, change, delete_response, handle_out,
  handle_admin_tuple_delete, handle_admin_purge,
}

module _ (ended : Error → Bool) where
  pub refused_status : (e : Error) → 400 ≤ (write_mapped_error ended (refused e)).status
  unfolding write_mapped_error map_error
  refused_status (invalid e) = omega arith
  refused_status not_found = omega arith
  refused_status timeout = omega arith
  refused_status canceled = omega arith
  refused_status _ = ground arith

  module _ (pg : Postgres) where
    open pg use {Db}

    -- A request to write a tuple is answered with 201 only if the service has stored it, and the
    -- database is then what it left; every other answer has an error status and leaves the database as
    -- it was.
    pub handle_out_lem :
        (sha1 : Text → List ℕ) (tuple : Tuple) (space : Text) (db : Db)
        → let (r, db') = handle_out ended pg sha1 (some tuple) space db in
          ((r.status ≡ 201) × (out pg sha1 space tuple db ≡ ok db'))
          ⊎ ((400 ≤ r.status) × (db' ≡ db))
    unfolding handle_out
    handle_out_lem sha1 tuple space db = elim (Result-cases (out pg sha1 space tuple db)) [
      | inl (db', e) ↦ rw e (inl (refl, refl))
      | inr (e, h) ↦ rw h (inr (refused_status e, refl))
    ]

    -- A purge without the confirm flag is refused with an error status and changes nothing.
    pub handle_admin_purge_unconfirmed :
        (filter : TupleFilter) (db : Db)
        → let (r, db') = handle_admin_purge ended pg (some (filter, false)) db in
          (r.status ≡ 400) × (db' ≡ db)
    unfolding handle_admin_purge write_mapped_error map_error
    handle_admin_purge_unconfirmed filter db = (refl, refl)

    module _ (faithful : Faithful pg) where
      delete_status :
          (id : ℤ) (db : Db) (o : Result Error (DeleteResult × Db))
          → delete_tuple pg id db ≡ o
          → (change ended (delete_response ended) db o).0.status ≡ 200
          → (has_id id (faithful.keys db) ≡ true)
            × (faithful.keys (change ended (delete_response ended) db o).1
                ≡ without_id id (faithful.keys db))
      unfolding change delete_response
      delete_status id db (err e) same h = absurd (omega (arith, refused_status e))
      delete_status id db (ok (r, db')) same h =
          let (_, found, left) = delete_tuple-Deleted pg faithful id db db' r same in
          elim (Bool-cases r.deleted) [
            | inl e ↦ (sym found ∙ e, left)
            | inr e ↦
                let status : (write_mapped_error ended (refused not_found)).status ≡ 200 =
                  ground arith in
                absurd (omega (arith, refused_status not_found))
          ]

      -- A request to delete a tuple by its number that is answered with 200 found the row, and that row
      -- alone is gone.
      pub handle_admin_tuple_delete_lem :
          (id : ℤ) (db : Db)
          → (handle_admin_tuple_delete ended pg id db).0.status ≡ 200
          → (has_id id (faithful.keys db) ≡ true)
            × (faithful.keys (handle_admin_tuple_delete ended pg id db).1
                ≡ without_id id (faithful.keys db))
      unfolding handle_admin_tuple_delete
      handle_admin_tuple_delete_lem id db h = delete_status id db (delete_tuple pg id db) refl h
