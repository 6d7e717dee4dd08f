-- ===== src/Store/Query/Printed.antt =====
-- `BuildCandidateQuery` prints a SELECT (internal/store/candidate_query.go).
use tuplespace.Base.{
  ℕ, ◌+◌, ◌*◌, ◌≡◌, inl, inr, refl, sym, ap, ◌∙◌, Bool, true, false, List, [], ◌∷◌, ◌++◌,
  append_assoc, append-nil, length-append, Text, codes, text_eq, length, if◌then◌else◌, ℤ, pos, ok,
  ◌>>=◌, >>=-eq-ok, ok-injective, arith, Bool-cases,
}
use tuplespace.Strconv.{format_nat}
use tuplespace.Types.{
  Any, nil, string, bool, int, int64, TemplateField, Template, field_actual, type_string, type_int,
  type_bool,
}
use tuplespace.Types.Normal.{IsNormal}
use tuplespace.Store.Query.{
  Builder, write, write_arg, value_column, write_join, write_joins, write_where, effective_limit,
  build_candidate_query, alias,
}
use tuplespace.Relational.Select.{
  Join, Select, column_name, print_joins, print_select, join_args, select_args, lock_text,
}

-- The joins of the actual fields, from position `i` on.
unfoldable pub joins_of : ℕ → List TemplateField → List Join
joins_of i [] = []
joins_of i (f ∷ fs) =
    let rest = joins_of (i + 1) fs in
    if text_eq f.kind field_actual
    then record { pos = i; type = f.type; value = f.value } ∷ rest
    else rest

-- The SELECT that the candidates of a template are asked for with.
unfoldable pub candidate_select : Text → Template → ℤ → Bool → Select
unfolding joins_of
candidate_select space t limit locked = record {
  joins = joins_of 0 t.fields;
  space = space;
  arity = length t.fields;
  limit = effective_limit limit;
  locked = locked;
}

-- An actual field has a value of its type.
abbrev pub HasValues : List TemplateField → Type 0
HasValues [] = Unit
HasValues (f ∷ fs) = (text_eq f.kind field_actual ≡ true → IsNormal f.type f.value) × HasValues fs

value_column_lem :
    (t : Text) (v : Any) (c : Text) → IsNormal t v → value_column t ≡ ok c → c ≡ column_name v
unfolding value_column text_eq
value_column_lem t (string s) c n h =
    let h' : value_column type_string ≡ ok c = rw n at h in sym (ok-injective h')
value_column_lem t (int64 z) c n h =
    let h' : value_column type_int ≡ ok c = rw n at h in sym (ok-injective h')
value_column_lem t (bool b) c n h =
    let h' : value_column type_bool ≡ ok c = rw n at h in sym (ok-injective h')
value_column_lem t nil c n h = absurd n
value_column_lem t _ c n h = absurd n

-- The text of one join, in front of what follows.
write_join_sql :
    (i n : ℕ) (f : TemplateField) (b b' : Builder) (rest : Text)
    → length b.args ≡ n * 3
    → IsNormal f.type f.value
    → write_join i n f b ≡ ok b'
    → (b'.sql ++ rest
        ≡ b.sql ++ print_joins n (record { pos = i; type = f.type; value = f.value } ∷ []) rest)
      × (b'.args ≡ b.args ++ int (pos i) ∷ string f.type ∷ f.value ∷ [])
unfolding write_join write write_arg alias print_joins
write_join_sql i n f b b' rest count normal h =
    let (column, e, h₁) = >>=-eq-ok (value_column f.type) _ h in
    let named = value_column_lem f.type f.value column normal e in
    (
      rw (← ok-injective h₁) (rw named (simp (append_assoc, length-append, count))),
      rw (← ok-injective h₁) (simp append_assoc),
    )

write_joins_sql :
    (i n : ℕ) (fs : List TemplateField) (b b' : Builder) (rest : Text)
    → length b.args ≡ n * 3
    → HasValues fs
    → write_joins i n fs b ≡ ok b'
    → (b'.sql ++ rest ≡ b.sql ++ print_joins n (joins_of i fs) rest)
      × (b'.args ≡ b.args ++ join_args (joins_of i fs) [])
      × (length b'.args ≡ (n + length (joins_of i fs)) * 3)
unfolding write_joins joins_of print_joins join_args
write_joins_sql i n [] b b' rest count values h =
    let same = ok-injective h in
    (rw (← same) refl, rw (← same) (sym (append-nil b.args)), rw (← same) (omega (arith, count)))
write_joins_sql i n (f ∷ fs) b b' rest count (value, values) h =
    elim (Bool-cases (text_eq f.kind field_actual)) [
      | inr e ↦
          let skipped : write_joins (i + 1) n fs b ≡ ok b' = ground arith in
          rw e (write_joins_sql (i + 1) n fs b b' rest count values skipped)
      | inl e ↦
          let joined : (write_join i n f b >>= λ c. write_joins (i + 1) (n + 1) fs c) ≡ ok b' =
            ground arith in
          let (c, e₁, h₁) = >>=-eq-ok (write_join i n f b) _ joined in
          let j : Join = record { pos = i; type = f.type; value = f.value } in
          let later = print_joins (n + 1) (joins_of (i + 1) fs) rest in
          let (sql, args) = write_join_sql i n f b c later count (value e) e₁ in
          let counted : length c.args ≡ (n + 1) * 3 =
            rw args (rw (length-append b.args) (omega (arith, count))) in
          let (sql', args', count') =
            write_joins_sql (i + 1) (n + 1) fs c b' rest counted values h₁ in
          rw e (
            sql' ∙ sql,
            args'
                ∙ (ap (λ l. l ++ join_args (joins_of (i + 1) fs) []) args
                    ∙ append_assoc b.args _ _),
            count' ∙ omega arith,
          )
    ]

join_args-append : (js : List Join) (rest : List Any) → join_args js [] ++ rest ≡ join_args js rest
unfolding join_args
join_args-append [] rest = refl
join_args-append (j ∷ js) rest = rw (join_args-append js rest)

-- The text behind the joins, with `k` placeholders before it.
abbrev where_text : ℕ → Bool → Text
where_text k locked =
    codes " WHERE t.space = $"
    ++ (format_nat (k + 1)
        ++ (codes " AND t.arity = $"
            ++ (format_nat (k + 2)
                ++ (codes " ORDER BY t.id"
                    ++ (lock_text locked ++ (codes " LIMIT $" ++ format_nat (k + 3)))))))

write_where_args :
    (space : Text) (n : ℕ) (limit : ℤ) (destructive : Bool) (b : Builder)
    → (write_where space n limit destructive b).args
      ≡ b.args ++ string space ∷ int (pos n) ∷ int limit ∷ []
unfolding write_where write write_arg
write_where_args space n limit true b =
    ap (λ l. l ++ int limit ∷ []) (append_assoc b.args (string space ∷ []) (int (pos n) ∷ []))
    ∙ append_assoc b.args (string space ∷ int (pos n) ∷ []) (int limit ∷ [])
write_where_args space n limit false b =
    ap (λ l. l ++ int limit ∷ []) (append_assoc b.args (string space ∷ []) (int (pos n) ∷ []))
    ∙ append_assoc b.args (string space ∷ int (pos n) ∷ []) (int limit ∷ [])

write_where_sql :
    (space : Text) (arity k : ℕ) (limit : ℤ) (locked : Bool) (b : Builder)
    → length b.args ≡ k
    → (write_where space arity limit locked b).sql ≡ b.sql ++ where_text k locked
unfolding write_where write write_arg
write_where_sql space arity k limit true b count = simp (append_assoc, length-append, count)
write_where_sql space arity k limit false b count = simp (append_assoc, length-append, count)

-- For a template whose actual fields have values of their types, the query is the text of the SELECT
-- that joins each actual field, with its placeholders numbered from 1 in the order of the arguments.
pub build_candidate_query-print_select :
    (space : Text) (t : Template) (limit : ℤ) (locked : Bool) (sql : Text) (args : List Any)
    → HasValues t.fields
    → build_candidate_query space t limit locked ≡ ok (sql, args)
    → let s = candidate_select space t limit locked in
      (sql ≡ print_select s) × (args ≡ select_args s)
unfolding build_candidate_query candidate_select print_select select_args
build_candidate_query-print_select space t limit locked sql args values h =
    let start : Builder = record {
      sql = codes "SELECT t.id, t.space, t.fields_json FROM tuples t";
      args = [];
    } in
    let (b, e, h₁) = >>=-eq-ok (write_joins 0 0 t.fields start) _ h in
    let js = joins_of 0 t.fields in
    let k = length js * 3 in
    let last = effective_limit limit in
    let (text, given, count) =
      write_joins_sql 0 0 t.fields start b (where_text k locked) refl values e in
    let exact : length b.args ≡ k = count ∙ omega arith in
    (
      sym (ap (λ p. p.0) (ok-injective h₁))
          ∙ (write_where_sql space (length t.fields) k last locked b exact ∙ text),
      sym (ap (λ p. p.1) (ok-injective h₁))
          ∙ (write_where_args space (length t.fields) last locked b
              ∙ (ap (λ l. l ++ string space ∷ int (pos (length t.fields)) ∷ int last ∷ []) given
                  ∙ join_args-append js _)),
    )
