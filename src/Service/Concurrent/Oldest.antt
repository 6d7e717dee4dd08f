-- ===== src/Service/Concurrent/Oldest.antt =====
-- What a consumer finds among others (internal/service/service.go): the oldest match that is not locked.
use tuplespace.Base.{
  ◌≡◌, inl, inr, ap, ◌∙◌, Bool, List, [], ◌∷◌, Text, ◌==◌, keep, All, ℤ, Bool-cases,
}
use tuplespace.Types.{Template}
use tuplespace.Types.Fields.{IsNormalTuple}
use tuplespace.Store.{StoredTuple}
use tuplespace.Store.Query.{effective_limit}
use tuplespace.Store.Query.Printed.{HasValues}
use tuplespace.Relational.Candidates.{preselects}
use tuplespace.Relational.Lists.{keep-keep}
use tuplespace.Service.{first_match}
use tuplespace.Service.Refinement.{WithinLimit}
use tuplespace.Service.Refinement.Preselected.{first_match-oldest}
use tuplespace.Service.Refinement.Steps.{take_rows_all}
use tuplespace.Service.Concurrent.{Shared, holders, unlocked_candidates, consumer_of}
use tuplespace.Space.{Contents, oldest}

All-keep {ℓ κ} :
    {A : Type ℓ} (P : A → Type κ) (p : A → Bool) (xs : List A) → All P xs → All P (keep p xs)
All-keep P p [] h = tt
All-keep P p (x ∷ xs) (h, hs) = elim (Bool-cases (p x)) [
  | inl e ↦ rw e (h, All-keep P p xs hs)
  | inr e ↦ rw e (All-keep P p xs hs)
]

-- The tuples that no open transaction has locked.
abbrev pub unlocked : Shared → Contents
unlocked s = keep (λ e. holders e.id s.consumers == 0) s.table

-- Where the tuples are normalised, the actual fields of the template have values of their types, and the
-- unlocked tuples that are preselected are no more than the limit, a consumer finds the oldest tuple of
-- the space that matches among those that no other open transaction has locked.
pub consumer_of-oldest :
    (limit : ℤ) (space : Text) (t : Template) (s : Shared)
    → HasValues t.fields
    → All (λ e. IsNormalTuple e.tuple) s.table
    → WithinLimit limit space t (unlocked s)
    → (consumer_of t (unlocked_candidates limit space t s)).chosen ≡ oldest space t (unlocked s)
unfolding consumer_of unlocked_candidates
consumer_of-oldest limit space t s values normal within =
    let free = λ (e : StoredTuple). holders e.id s.consumers == 0 in
    let both = keep-keep free (preselects space t) s.table in
    ap (first_match t) (rw (← both) (take_rows_all (effective_limit limit) _ within))
    ∙ first_match-oldest space t values (unlocked s)
        (All-keep (λ e. IsNormalTuple e.tuple) free s.table normal)
