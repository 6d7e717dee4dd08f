-- ===== src/Commands/Inputs/Chosen.antt =====
-- Which source a command takes its tuples from (cmd/tuplespacectl/cmds/common.go).
use tuplespace.Base.{
  ℕ, ◌+◌, ◌≡◌, ◌≢◌, ◌⊎◌, inl, inr, refl, sym, Option, List, [], ◌∷◌, Text, Zip, Result, ok,
  >>=-eq-ok, wrap, wrap-eq-ok, ok-injective,
}
use tuplespace.Types.{Tuple}
use tuplespace.Dsl.{parse_tuple_spec}
use tuplespace.Commands.Inputs.{
  Error, argument_failed, spec_failed, load_tuple, parse_tuple_specs, load_tuple_inputs,
}

-- The one source that is given, and what it gives.
abbrev pub Chosen :
    {A : Type 0}
    → (Text → Result Error A)
    → (Text → A → Type 0)
    → Text
    → Text
    → List Text
    → List A
    → Type 0
Chosen {A} load Parses path spec specs xs =
    ((path ≢ []) × (spec ≡ []) × (specs ≡ []) × ((x : A) × (load path ≡ ok x) × (xs ≡ x ∷ [])))
    ⊎ (((path ≡ []) × (spec ≢ []) × (specs ≡ []) × ((x : A) × Parses spec x × (xs ≡ x ∷ [])))
        ⊎ ((path ≡ []) × (spec ≡ []) × (specs ≢ []) × Zip Parses specs xs))

parse_tuple_specs-Zip :
    (i : ℕ) (specs : List Text) (ts : List Tuple)
    → parse_tuple_specs i specs ≡ ok ts
    → Zip (λ s t. parse_tuple_spec s ≡ ok t) specs ts
unfolding parse_tuple_specs
parse_tuple_specs-Zip i [] ts h = rw (← ok-injective h) tt
parse_tuple_specs-Zip i (s ∷ ss) ts h =
    let (t, e₁, h₁) = >>=-eq-ok (wrap (argument_failed i) (parse_tuple_spec s)) _ h in
    let (rest, e₂, h₂) = >>=-eq-ok (parse_tuple_specs (i + 1) ss) _ h₁ in
    rw (← ok-injective h₂) (wrap-eq-ok _ _ e₁, parse_tuple_specs-Zip (i + 1) ss rest e₂)

-- Where the loading of tuples succeeds, exactly one of the file, the spec and the arguments was given,
-- and the tuples are those of that source: one of the file, one of the spec, or one of each argument in
-- the order of the arguments.
pub load_tuple_inputs-Chosen :
    (read_file : Text → Option Text) (decode : Text → Option Tuple) (path spec : Text)
    (specs : List Text) (ts : List Tuple)
    → load_tuple_inputs read_file decode path spec specs ≡ ok ts
    → Chosen (load_tuple read_file decode) (λ s t. parse_tuple_spec s ≡ ok t) path spec specs ts
unfolding load_tuple_inputs
load_tuple_inputs-Chosen read_file decode [] [] [] ts h = cc
load_tuple_inputs-Chosen read_file decode (c ∷ path) [] [] ts h =
    let (t, e, h₁) = >>=-eq-ok (load_tuple read_file decode (c ∷ path)) _ h in
    inl ((λ p. cc), refl, refl, (t, e, sym (ok-injective h₁)))
load_tuple_inputs-Chosen read_file decode [] (c ∷ spec) [] ts h =
    let (t, e, h₁) = >>=-eq-ok (wrap spec_failed (parse_tuple_spec (c ∷ spec))) _ h in
    inr (inl (refl, (λ p. cc), refl, (t, wrap-eq-ok _ _ e, sym (ok-injective h₁))))
load_tuple_inputs-Chosen read_file decode [] [] (s ∷ specs) ts h =
    inr (inr (refl, refl, (λ p. cc), parse_tuple_specs-Zip 0 (s ∷ specs) ts h))
load_tuple_inputs-Chosen read_file decode (c ∷ path) (d ∷ spec) [] ts h = cc
load_tuple_inputs-Chosen read_file decode (c ∷ path) (d ∷ spec) (s ∷ specs) ts h = cc
load_tuple_inputs-Chosen read_file decode (c ∷ path) [] (s ∷ specs) ts h = cc
load_tuple_inputs-Chosen read_file decode [] (d ∷ spec) (s ∷ specs) ts h = cc
