-- ===== src/Service/Once.antt =====
-- One attempt of a read (internal/service/service.go): which candidate it takes; and what a DELETE
-- leaves of the rows.
use tuplespace.Base.{
  ℕ, ◌≡◌, inl, inr, refl, ap, Bool, false, not, ◌||◌, Option, none, some, List, [], ◌∷◌, ◌++◌, keep,
  ltb, All, ℤ, int_eq, Option-cases,
}
use tuplespace.Types.{Template}
use tuplespace.Match.{Bindings, match}
use tuplespace.Store.{StoredTuple}
use tuplespace.Store.Database.{Postgres}
use tuplespace.Service.{first_match}

-- The first candidate that matches, or that none does.
abbrev pub FirstMatch : Template → List StoredTuple → Option (StoredTuple × Bindings) → Type 0
FirstMatch t cs none = All (λ c. match t c.tuple ≡ none) cs
FirstMatch t cs (some (c, b)) =
    (before after : List StoredTuple) × (cs ≡ before ++ c ∷ after)
    × All (λ d. match t d.tuple ≡ none) before
    × (match t c.tuple ≡ some b)

miss_step :
    (t : Template) (c : StoredTuple) (cs : List StoredTuple) (r : Option (StoredTuple × Bindings))
    → match t c.tuple ≡ none
    → FirstMatch t cs r
    → FirstMatch t (c ∷ cs) r
miss_step t c cs none e h = (e, h)
miss_step t c cs (some (d, b)) e (before, after, split, misses, found) =
    (c ∷ before, after, ap (◌∷◌ c) split, (e, misses), found)

-- The loop over the candidates takes the first that matches the template, and gives its bindings; it
-- takes none only if no candidate matches.
pub first_match_lem : (t : Template) (cs : List StoredTuple) → FirstMatch t cs (first_match t cs)
unfolding first_match
first_match_lem t [] = tt
first_match_lem t (c ∷ cs) = elim (Option-cases (match t c.tuple)) [
  | inl e ↦ rw (e, first_match) (miss_step t c cs (first_match t cs) e (first_match_lem t cs))
  | inr (b, e) ↦ rw (e, first_match) ([], cs, refl, tt, e)
]

abbrev pub ids : List StoredTuple → List ℤ
ids [] = []
ids (c ∷ cs) = c.id ∷ ids cs

abbrev pub has_id : ℤ → List ℤ → Bool
has_id i [] = false
has_id i (j ∷ js) = int_eq j i || has_id i js

abbrev pub without_id : ℤ → List ℤ → List ℤ
without_id i = keep (λ j. not (int_eq j i))

-- What PostgreSQL says of the rows of `tuples`, by their keys: a transaction starts from the contents,
-- a commit puts its own in their place, and DELETE … WHERE id = $1 removes that row alone and counts it.
pub record Faithful (pg : Postgres) : Type 0 where
  pub keys : pg.Db → List ℤ
  pub keys-begin : (db tx : pg.Db) → pg.begin db ≡ some tx → keys tx ≡ keys db
  pub keys-commit : (db tx db' : pg.Db) → pg.commit db tx ≡ some db' → keys db' ≡ keys tx
  pub keys-delete :
      (db db' : pg.Db) (i : ℤ) (n : ℕ)
      → pg.delete_by_id db i ≡ some (n, db')
      → keys db' ≡ without_id i (keys db)
  pub counts :
      (db db' : pg.Db) (i : ℤ) (n : ℕ)
      → pg.delete_by_id db i ≡ some (n, db')
      → ltb 0 n ≡ has_id i (keys db)
