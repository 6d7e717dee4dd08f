-- ===== src/Space.antt =====
-- A tuple space as its users see it: a sequence of tuples, each in a named space, oldest first. What
-- the service promises is stated against these operations; they know nothing of the tables.
pub mod Changes
use tuplespace.Base.{
  ℕ, suc, ◌≡◌, Bool, true, false, ◌&&◌, Option, none, some, List, [], ◌∷◌, ◌++◌, Text, text_eq, ℤ,
  int_eq, not, keep, All, if◌then◌else◌, ok,
}
use tuplespace.Types.{Tuple, Template}
use tuplespace.Match.{Bindings, match}
use tuplespace.Validation.{validate_tuple, validate_template}
use tuplespace.Store.{StoredTuple}

-- The tuples, each with a number of its own.
abbrev pub Contents : Type 0
Contents = List StoredTuple

-- No tuple has this number.
abbrev pub IsNew : ℤ → Contents → Type 0
IsNew id = All (λ e. int_eq e.id id ≡ false)

abbrev pub Distinct : Contents → Type 0
Distinct [] = Unit
Distinct (e ∷ s) = IsNew e.id s × Distinct s

abbrev pub found_in :
    StoredTuple
    → Bool
    → Option Bindings
    → Option (StoredTuple × Bindings)
    → Option (StoredTuple × Bindings)
found_in e false b later = later
found_in e true none later = later
found_in e true (some b) later = some (e, b)

-- The oldest tuple of the space that matches the template.
unfoldable pub oldest : Text → Template → Contents → Option (StoredTuple × Bindings)
oldest space t [] = none
oldest space t (e ∷ es) = found_in e (text_eq e.space space) (match t e.tuple) (oldest space t es)

-- Writing a tuple, under a new number.
abbrev pub put : ℤ → Text → Tuple → Contents → Contents
put id space u s = s ++ record { id = id; space = space; tuple = u } ∷ []

-- Taking a tuple that was found.
abbrev pub take_away : Option (StoredTuple × Bindings) → Contents → Contents
take_away none s = s
take_away (some (e, b)) s = keep (λ d. not (int_eq d.id e.id)) s

abbrev pub answer : Option (StoredTuple × Bindings) → Option (Tuple × Bindings)
answer none = none
answer (some (e, b)) = some (e.tuple, b)

-- A call that returned, with what it was given and what it answered; the Boolean says whether the
-- tuple is taken.
pub data Event : Type 0 where
  wrote : Text → Tuple → Event
  looked : Bool → Text → Template → Option (Tuple × Bindings) → Event

-- What the calls may do to a tuple space.
abbrev pub May : Event → Contents → Contents → Type 0
May (wrote space u) s s' =
    (id : ℤ) × (v : Tuple) × (validate_tuple u ≡ ok v) × IsNew id s × (s' ≡ put id space v s)
May (looked taking space t found) s s' =
    (v : Template) × (validate_template t ≡ ok v)
    × (found ≡ answer (oldest space v s))
    × (s' ≡ (if taking then take_away (oldest space v s) s else s))

-- The calls one after the other, from the first state to the second.
abbrev pub Runs : {S : Type 0} → (Event → S → S → Type 0) → List Event → S → S → Type 0
Runs step [] s s' = s' ≡ s
Runs {S} step (e ∷ es) s s' = (m : S) × step e s m × Runs step es m s'

abbrev pub writes : List Event → ℕ
writes [] = 0
writes (wrote space u ∷ es) = suc (writes es)
writes (looked taking space t found ∷ es) = writes es

abbrev pub takes : List Event → ℕ
takes [] = 0
takes (looked true space t (some found) ∷ es) = suc (takes es)
takes (_ ∷ es) = takes es
