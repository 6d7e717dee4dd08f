-- ===== src/Store/Query.antt =====
-- `BuildCandidateQuery` (internal/store/candidate_query.go): the SQL text and its arguments.
pub mod Printed
use tuplespace.Base.{
  ℕ, suc, ◌+◌, ◌*◌, ◌≡◌, ◌≢◌, ◌⊎◌, inl, inr, refl, sym, ap, ◌∙◌, Bool, true, false, not, List, [],
  ◌∷◌, ◌++◌, append_assoc, append-nil, Text, codes, text_eq, length, length-append, if◌then◌else◌,
  ℤ, pos, not_positive, Result, ok, err, ◌>>=◌, >>=-eq-ok, arith, Bool-cases,
}
use tuplespace.Strconv.{format_nat}
use tuplespace.Types.{
  Any, string, int, TemplateField, Template, field_actual, type_string, type_int, type_bool,
}

pub data QueryError : Type 0 where
  unsupported_field_type : Text → QueryError

-- The builder and the arguments of the closure `arg`.
pub record Builder : Type 0 where
  pub sql : Text
  pub args : List Any

write : Text → Builder → Builder
write s b = record b { sql = b.sql ++ s }

-- builder.WriteString(arg(value)): the placeholder has the number of the argument.
write_arg : Any → Builder → Builder
write_arg v b =
    let args = b.args ++ v ∷ [] in
    record { sql = b.sql ++ codes "$" ++ format_nat (length args); args = args }

-- The column that a value of the field's type stands in.
value_column : Text → Result QueryError Text
value_column t =
    if text_eq t type_string
    then ok (codes ".text_val = ")
    else if text_eq t type_int
    then ok (codes ".int_val = ")
    else if text_eq t type_bool
    then ok (codes ".bool_val = ")
    else err (unsupported_field_type t)

alias : ℕ → Text
alias n = codes "f" ++ format_nat n

-- The join of one actual field.
write_join : ℕ → ℕ → TemplateField → Builder → Result QueryError Builder
unfolding write write_arg value_column alias
write_join i n f b = do
  let a = alias n
  let b₁ = write (codes ".pos = ") (
      write a (
        write (codes " AND ") (
          write (codes ".tuple_id = t.id")
            (write a (write (codes " ON ") (write a (write (codes " JOIN tuple_fields ") b)))))))
  let b₂ = write (codes ".type = ") (write a (write (codes " AND ") (write_arg (int (pos i)) b₁)))
  let b₃ = write_arg (string f.type) b₂
  column ← value_column f.type
  ok (write_arg f.value (write column (write a (write (codes " AND ") b₃))))

-- The loop, at position `i` with `n` joins so far.
write_joins : ℕ → ℕ → List TemplateField → Builder → Result QueryError Builder
unfolding write_join
write_joins i n [] b = ok b
write_joins i n (f ∷ fs) b =
    let skip = write_joins (i + 1) n fs b in
    if not (text_eq f.kind field_actual)
    then skip
    else (do b' ← write_join i n f b; write_joins (i + 1) (n + 1) fs b')

abbrev pub effective_limit : ℤ → ℤ
effective_limit limit = if not_positive limit then pos 64 else limit

pub write_where : Text → ℕ → ℤ → Bool → Builder → Builder
unfolding write write_arg
write_where space arity limit destructive b =
    let b₁ = write_arg (string space) (write (codes " WHERE t.space = ") b) in
    let b₂ = write_arg (int (pos arity)) (write (codes " AND t.arity = ") b₁) in
    let b₃ = write (codes " ORDER BY t.id") b₂ in
    let b₄ = if destructive then write (codes " FOR UPDATE SKIP LOCKED") b₃ else b₃ in
    write_arg (int limit) (write (codes " LIMIT ") b₄)

unfoldable pub build_candidate_query :
    Text → Template → ℤ → Bool → Result QueryError (Text × List Any)
unfolding write_joins write_where
build_candidate_query space template limit destructive = do
  b ←
      write_joins 0 0 template.fields
        (record { sql = codes "SELECT t.id, t.space, t.fields_json FROM tuples t"; args = [] })
  let b' = write_where space (length template.fields) (effective_limit limit) destructive b
  ok (b'.sql, b'.args)
