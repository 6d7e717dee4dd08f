-- ===== src/Store/Filters.antt =====
-- The filter queries of internal/store/admin_store.go: their text and their arguments.
use tuplespace.Base.{
  ℕ, Bool, Option, none, some, List, [], ◌∷◌, ◌++◌, Text, codes, trim_space, length, if◌then◌else◌,
  ℤ, not_positive,
}
use tuplespace.Strconv.{format_nat}
use tuplespace.Store.Database.{Arg, text_arg, int_arg, time_arg}

-- admin.TupleFilter; a time is a number of microseconds.
pub record TupleFilter : Type 0 where
  pub space : Text
  pub created_before : Option ℕ
  pub created_after : Option ℕ
  pub limit : ℤ
  pub offset : ℤ

-- The builder and the arguments of the closure `arg`.
pub record Filtered : Type 0 where
  pub sql : Text
  pub args : List Arg

-- builder.WriteString(text), and then builder.WriteString(arg(value))
write_condition : Text → Arg → Filtered → Filtered
write_condition s v b =
    let args = b.args ++ v ∷ [] in
    record { sql = b.sql ++ s ++ codes "$" ++ format_nat (length args); args = args }

write_time : Text → Option ℕ → Filtered → Filtered
unfolding write_condition
write_time s none b = b
write_time s (some t) b = write_condition s (time_arg t) b

write_space : Text → Filtered → Filtered
unfolding write_condition
write_space [] b = b
write_space (c ∷ s) b = write_condition (codes " AND space = ") (text_arg (c ∷ s)) b

unfoldable pub append_tuple_filter : TupleFilter → Filtered → Filtered
unfolding write_time write_space
append_tuple_filter filter b =
    write_time (codes " AND created_at > ") filter.created_after
      (write_time (codes " AND created_at < ") filter.created_before (write_space filter.space b))

write_page : Text → ℤ → Filtered → Filtered
unfolding write_condition
write_page s n b = if not_positive n then b else write_condition s (int_arg n) b

write_order : Filtered → Filtered
write_order b = record b { sql = b.sql ++ codes " ORDER BY space, id" }

unfoldable pub build_tuple_filter_query : Text → TupleFilter → Bool → Text × List Arg
unfolding append_tuple_filter write_page write_order
build_tuple_filter_query base filter include_page =
    let start : Filtered = record { sql = trim_space base ++ codes " WHERE 1=1"; args = [] } in
    let b = append_tuple_filter filter start in
    let paged =
      write_page (codes " OFFSET ") filter.offset
        (write_page (codes " LIMIT ") filter.limit (write_order b)) in
    if include_page then (paged.sql, paged.args) else (b.sql, b.args)

unfoldable pub build_tuple_delete_query : TupleFilter → Text × List Arg
unfolding append_tuple_filter
build_tuple_delete_query filter =
    let b =
      append_tuple_filter filter
        (record { sql = codes "DELETE FROM tuples WHERE 1=1"; args = [] }) in
    (b.sql, b.args)
