-- ===== src/Service/Deletes.antt =====
-- `DeleteTuple` of the service (internal/service/admin.go) and the rows of the database.
use tuplespace.Base.{
  or_fail, or_fail-eq-ok, ◌≡◌, sym, ap, ◌∙◌, Bool, ℤ, ok, wrap, >>=-eq-ok, >>-eq-ok, wrap-eq-ok,
  ok-injective,
}
use tuplespace.Store.Database.{Postgres}
use tuplespace.Store.{delete_failed}
use tuplespace.Store.Admin.{delete_tuple_by_id}
use tuplespace.Service.{begin_failed, commit_failed, store}
use tuplespace.Service.Once.{Faithful, has_id, without_id}
use tuplespace.Service.Admin.{DeleteResult, delete_tuple, check_tuple_id}

module _ (pg : Postgres) (faithful : Faithful pg) where
  open pg use {Db, begin, commit}

  delete_tuple_by_id_lem :
      (id : ℤ) (db db' : Db) (deleted : Bool)
      → delete_tuple_by_id pg id db ≡ ok (deleted, db')
      → (deleted ≡ has_id id (faithful.keys db))
        × (faithful.keys db' ≡ without_id id (faithful.keys db))
  unfolding delete_tuple_by_id
  delete_tuple_by_id_lem id db db' deleted h =
      let ((n, d), e, h₁) = >>=-eq-ok (or_fail (delete_failed id) (pg.delete_by_id db id)) _ h in
      let same = ok-injective h₁ in
      let row = or_fail-eq-ok (delete_failed id) _ e in
      (
        sym (ap (λ p. p.0) same) ∙ faithful.counts db d id n row,
        ap faithful.keys (sym (ap (λ p. p.1) same)) ∙ faithful.keys-delete db d id n row,
      )

  -- A delete by number that returns gives the number and whether a row had it, and that row alone is
  -- gone.
  pub delete_tuple-Deleted :
      (id : ℤ) (db db' : Db) (r : DeleteResult)
      → delete_tuple pg id db ≡ ok (r, db')
      → (r.tuple_id ≡ id)
        × (r.deleted ≡ has_id id (faithful.keys db))
        × (faithful.keys db' ≡ without_id id (faithful.keys db))
  unfolding delete_tuple check_tuple_id
  delete_tuple-Deleted id db db' r h =
      let (_, h₀) = >>-eq-ok (check_tuple_id id) _ h in
      let (tx, e₁, h₁) = >>=-eq-ok (or_fail begin_failed (begin db)) _ h₀ in
      let ((deleted, tx'), e₂, h₂) = >>=-eq-ok (wrap store (delete_tuple_by_id pg id tx)) _ h₁ in
      let (d, e₃, h₃) = >>=-eq-ok (or_fail commit_failed (commit db tx')) _ h₂ in
      let same = ok-injective h₃ in
      let start = ap faithful.keys (sym (ap (λ p. p.1) same)) in
      let base = faithful.keys-begin db tx (or_fail-eq-ok begin_failed _ e₁) in
      let (found, left) = delete_tuple_by_id_lem id tx tx' deleted (wrap-eq-ok store _ e₂) in
      let stored = faithful.keys-commit db tx' d (or_fail-eq-ok commit_failed _ e₃) in
      (
        sym (ap (λ p. p.0.tuple_id) same),
        sym (ap (λ p. p.0.deleted) same) ∙ (found ∙ ap (has_id id) base),
        start ∙ (stored ∙ (left ∙ ap (without_id id) base)),
      )
