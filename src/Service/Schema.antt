-- ===== src/Service/Schema.antt =====
-- What the schema lacks (internal/service/admin.go).
use tuplespace.Base.{
  ◌≡◌, refl, ap, ◌∙◌, Bool, true, false, not, ◌&&◌, ◌||◌, List, [], ◌∷◌, Text, codes, text_eq,
  text_eq_iff, ltb, ◌==◌, if◌then◌else◌, arith,
}

abbrev pub required_schema_tables : List Text
required_schema_tables = codes "tuples" ∷ codes "tuple_fields" ∷ []

abbrev pub required_schema_indexes : List Text
required_schema_indexes =
    codes "tuples_space_arity_id_idx"
    ∷ codes "tuple_fields_text_idx"
    ∷ codes "tuple_fields_int_idx"
    ∷ codes "tuple_fields_bool_idx"
    ∷ []

pub record SchemaSnapshot : Type 0 where
  pub migration_files : List Text
  pub tables : List Text
  pub indexes : List Text
  pub missing_tables : List Text
  pub missing_indexes : List Text

-- Whether a set of strings has one.
unfoldable pub contains : Text → List Text → Bool
contains s [] = false
contains s (t ∷ ts) = text_eq s t || contains s ts

unfoldable pub missing_strings : List Text → List Text → List Text
missing_strings [] present = []
missing_strings (r ∷ required) present =
    let rest = missing_strings required present in if contains r present then rest else r ∷ rest

-- The order of two strings.
unfoldable pub text_before : Text → Text → Bool
text_before _ [] = false
text_before [] (_ ∷ _) = true
text_before (a ∷ s) (b ∷ t) = if a == b then text_before s t else ltb a b

insert_text : Text → List Text → List Text
unfolding text_before
insert_text s [] = s ∷ []
insert_text s (t ∷ ts) =
    let rest = insert_text s ts in if text_before t s then t ∷ rest else s ∷ t ∷ ts

-- sort.Strings
unfoldable pub sort_strings : List Text → List Text
unfolding insert_text
sort_strings [] = []
sort_strings (s ∷ ss) = insert_text s (sort_strings ss)

-- `Schema`, for what the two queries give.
unfoldable pub schema_of : List Text → List Text → List Text → SchemaSnapshot
schema_of migration_files tables indexes = record {
  migration_files = migration_files;
  tables = sort_strings tables;
  indexes = sort_strings indexes;
  missing_tables = missing_strings required_schema_tables (sort_strings tables);
  missing_indexes = missing_strings required_schema_indexes (sort_strings indexes);
}

contains-same :
    (s r : Text) (present : List Text)
    → text_eq s r ≡ true
    → contains s present ≡ contains r present
contains-same s r present e = rw ((text_eq_iff s r).0 e) refl

contains-missing :
    (s : Text) (required present : List Text)
    → contains s (missing_strings required present)
      ≡ (contains s required && not (contains s present))
unfolding contains missing_strings
contains-missing s [] present = refl
contains-missing s (r ∷ required) present =
    ground (arith, contains-missing s required present, contains-same s r present)

contains-insert :
    (s t : Text) (ts : List Text) → contains s (insert_text t ts) ≡ (text_eq s t || contains s ts)
unfolding contains insert_text
contains-insert s t [] = refl
contains-insert s t (u ∷ ts) = ground (arith, contains-insert s t ts)

contains-sort : (s : Text) (ts : List Text) → contains s (sort_strings ts) ≡ contains s ts
unfolding contains sort_strings
contains-sort s [] = refl
contains-sort s (t ∷ ts) = ground (arith, contains-insert s t (sort_strings ts), contains-sort s ts)

-- The schema report names as missing exactly the required tables that the database does not have, and
-- exactly the required indexes that it does not have.
pub schema_of_lem :
    (files tables indexes : List Text) (s : Text)
    → let r = schema_of files tables indexes in
      (contains s r.missing_tables ≡ (contains s required_schema_tables && not (contains s tables)))
      × (contains s r.missing_indexes
          ≡ (contains s required_schema_indexes && not (contains s indexes)))
unfolding schema_of
schema_of_lem files tables indexes s = (
  contains-missing s required_schema_tables (sort_strings tables)
      ∙ ap (λ b. contains s required_schema_tables && not b) (contains-sort s tables),
  contains-missing s required_schema_indexes (sort_strings indexes)
      ∙ ap (λ b. contains s required_schema_indexes && not b) (contains-sort s indexes),
)
