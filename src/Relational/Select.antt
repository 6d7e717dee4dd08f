-- ===== src/Relational/Select.antt =====
-- A SELECT over `tuples t` with inner joins on `tuple_fields`: its text, its arguments, and the rows
-- that it stands for.
use tuplespace.Base.{
  ℕ, suc, zero, ◌+◌, ◌*◌, Bool, true, false, ◌&&◌, Option, none, some, List, [], ◌∷◌, ◌++◌, Text,
  codes, text_eq, ◌==◌, length, take, keep, if◌then◌else◌, ℤ, pos, negsuc, int_eq,
}
use tuplespace.Strconv.{format_nat}
use tuplespace.Types.{Any, string, bool, int, int64}
use tuplespace.Store.Database.{Columns}
use tuplespace.Relational.{TupleRow, FieldRow, Tables}

-- One join: the row of this position has this type, and this value in the column of the value.
pub record Join : Type 0 where
  pub pos : ℕ
  pub type : Text
  pub value : Any

pub record Select : Type 0 where
  pub joins : List Join
  pub space : Text
  pub arity : ℕ
  pub limit : ℤ
  pub locked : Bool

abbrev pub column_name : Any → Text
column_name (string s) = codes ".text_val = "
column_name (int64 z) = codes ".int_val = "
column_name _ = codes ".bool_val = "

-- The text from the join of this number on; each join has three placeholders.
unfoldable pub print_joins : ℕ → List Join → Text → Text
print_joins n [] rest = rest
print_joins n (j ∷ js) rest =
    let f = codes "f" ++ format_nat n in
    codes " JOIN tuple_fields "
    ++ (f
        ++ (codes " ON "
            ++ (f
                ++ (codes ".tuple_id = t.id AND "
                    ++ (f
                        ++ (codes ".pos = $"
                            ++ (format_nat (n * 3 + 1)
                                ++ (codes " AND "
                                    ++ (f
                                        ++ (codes ".type = $"
                                            ++ (format_nat (n * 3 + 2)
                                                ++ (codes " AND "
                                                    ++ (f
                                                        ++ (column_name j.value
                                                            ++ (codes "$"
                                                            ++ (format_nat (n * 3 + 3)
                                                            ++ print_joins (n + 1) js
                                                            rest))))))))))))))))

abbrev pub lock_text : Bool → Text
lock_text true = codes " FOR UPDATE SKIP LOCKED"
lock_text false = []

unfoldable pub print_select : Select → Text
unfolding print_joins
print_select s =
    let k = length s.joins * 3 in
    codes "SELECT t.id, t.space, t.fields_json FROM tuples t"
    ++ print_joins 0 s.joins (
        codes " WHERE t.space = $"
        ++ (format_nat (k + 1)
            ++ (codes " AND t.arity = $"
                ++ (format_nat (k + 2)
                    ++ (codes " ORDER BY t.id"
                        ++ (lock_text s.locked ++ (codes " LIMIT $" ++ format_nat (k + 3))))))))

unfoldable pub join_args : List Join → List Any → List Any
join_args [] rest = rest
join_args (j ∷ js) rest = int (pos j.pos) ∷ string j.type ∷ j.value ∷ join_args js rest

unfoldable pub select_args : Select → List Any
unfolding join_args
select_args s = join_args s.joins (string s.space ∷ int (pos s.arity) ∷ int s.limit ∷ [])

-- `=` on a column that may be NULL
abbrev is_text : Option Text → Text → Bool
is_text none s = false
is_text (some t) s = text_eq t s

abbrev is_int : Option ℤ → ℤ → Bool
is_int none z = false
is_int (some y) z = int_eq y z

abbrev is_bool : Option Bool → Bool → Bool
is_bool none b = false
is_bool (some true) b = b
is_bool (some false) b = if b then false else true

unfoldable pub column_holds : Columns → Any → Bool
column_holds c (string s) = is_text c.text_val s
column_holds c (int64 z) = is_int c.int_val z
column_holds c (bool b) = is_bool c.bool_val b
column_holds c _ = false

-- The conditions of a join on a row of the tuple.
unfoldable pub joins_row : Join → FieldRow → Bool
unfolding column_holds
joins_row j f = (f.pos == j.pos) && text_eq f.type j.type && column_holds f.columns j.value

-- The number of ways to choose a row for each join.
unfoldable pub ways : ℤ → List FieldRow → List Join → ℕ
ways id fields [] = 1
ways id fields (j ∷ js) =
    length (keep (λ f. int_eq f.tuple_id id && joins_row j f) fields) * ways id fields js

unfoldable pub copies : ℕ → TupleRow → List TupleRow → List TupleRow
copies zero r rest = rest
copies (suc n) r rest = r ∷ copies n r rest

unfoldable pub selects : Select → TupleRow → Bool
selects s r = text_eq r.space s.space && (r.arity == s.arity)

unfoldable pub selected : Select → List FieldRow → List TupleRow → List TupleRow
unfolding copies
selected s fields [] = []
selected s fields (r ∷ rs) =
    let rest = selected s fields rs in
    if selects s r then copies (ways r.id fields s.joins) r rest else rest

-- A negative LIMIT is an error of the statement.
abbrev pub take_rows {ℓ} : {A : Type ℓ} → ℤ → List A → List A
take_rows (pos n) rows = take n rows
take_rows (negsuc n) rows = []

unfoldable pub evaluate : Select → Tables → List TupleRow
unfolding selected
evaluate s t = take_rows s.limit (selected s t.fields t.tuples)
