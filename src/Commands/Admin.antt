-- ===== src/Commands/Admin.antt =====
-- The administration commands (cmd/tuplespacectl/cmds/admin). time.Parse is a parameter.
use tuplespace.Base.{
  ℕ, Bool, Option, none, some, List, Text, map, is_empty, if◌then◌else◌, ℤ, pos, Result, ok, err,
  ◌>>=◌, or_fail,
}
use tuplespace.Store.Filters.{TupleFilter}
use tuplespace.Client.Requests
use tuplespace.Client.Requests.{Http, Decoders}
use tuplespace.Commands.Outputs.{
  Row, tuple_row, space_row, waiter_row, stats_row, config_row, schema_row, health_row, purge_row,
  delete_row, notify_test_row, Error, bad_time, Session, Finished, print_row, print_rows,
  after_answer, finished,
}
use tuplespace.Commands.Tuples.{new}

-- The settings of dump, peek, export and purge; purge has no limit and no offset.
pub record FilterSettings : Type 0 where
  pub space : Text
  pub limit : ℤ
  pub offset : ℤ
  pub created_before : Text
  pub created_after : Text

module _ (parse_time : Text → Option ℕ) where
  time_of : Text → Result Error (Option ℕ)
  time_of s =
      if is_empty s then ok none else (do t ← or_fail (bad_time s) (parse_time s); ok (some t))

  unfoldable pub build_tuple_filter : FilterSettings → Result Error TupleFilter
  unfolding time_of
  build_tuple_filter s = do
    before ← time_of s.created_before
    after ← time_of s.created_after
    ok (record {
      space = s.space;
      created_before = before;
      created_after = after;
      limit = s.limit;
      offset = s.offset;
    })

module _ {W P : Type 0} (add_row : Row → P → Option P) (connect : Text → ℤ → Http W)
    (json : Decoders) where
  abbrev client : Text → Http W
  client = new connect

  one_row : {A : Type 0} → (A → Row) → A → Session W P → Finished W P
  unfolding print_row
  one_row row a = print_row add_row (row a) (finished add_row)

  -- addTupleRows and the other loops over an answer
  many_rows : {A : Type 0} → (A → Row) → List A → Session W P → Finished W P
  unfolding print_rows
  many_rows row xs = print_rows add_row (map row xs)

  with_filter :
      (TupleFilter → Session W P → Finished W P)
      → Session W P
      → Result Error TupleFilter
      → Finished W P
  with_filter next w (err e) = (err e, w)
  with_filter next w (ok filter) = next filter w

  unfoldable pub dump_command :
      (Text → Option ℕ) → Text → FilterSettings → Session W P → Finished W P
  unfolding many_rows with_filter after_answer
  dump_command parse_time url s w =
      with_filter
        (λ filter w'.
          after_answer add_row (many_rows tuple_row) w'.rows
            (Requests.dump (client url) json filter w'.server))
        w (build_tuple_filter parse_time s)

  unfoldable pub peek_command :
      (Text → Option ℕ) → Text → FilterSettings → Session W P → Finished W P
  unfolding many_rows with_filter after_answer
  peek_command parse_time url s w =
      with_filter
        (λ filter w'.
          after_answer add_row (many_rows tuple_row) w'.rows
            (Requests.peek (client url) json filter w'.server))
        w (build_tuple_filter parse_time s)

  unfoldable pub export_command :
      (Text → Option ℕ) → Text → FilterSettings → Session W P → Finished W P
  unfolding many_rows with_filter after_answer
  export_command parse_time url s w =
      with_filter
        (λ filter w'.
          after_answer add_row (many_rows tuple_row) w'.rows
            (Requests.export (client url) json filter w'.server))
        w (build_tuple_filter parse_time s)

  unfoldable pub purge_command :
      (Text → Option ℕ) → Text → FilterSettings → Bool → Session W P → Finished W P
  unfolding one_row with_filter after_answer
  purge_command parse_time url s confirm w =
      with_filter
        (λ filter w'.
          after_answer add_row (one_row purge_row) w'.rows
            (Requests.purge (client url) json filter confirm w'.server))
        w (build_tuple_filter parse_time (record s { limit = pos 0; offset = pos 0 }))

  unfoldable pub spaces_command : Text → Session W P → Finished W P
  unfolding many_rows after_answer
  spaces_command url w =
      after_answer add_row (many_rows space_row) w.rows (Requests.spaces (client url) json w.server)

  unfoldable pub waiters_command : Text → Session W P → Finished W P
  unfolding many_rows after_answer
  waiters_command url w =
      after_answer add_row (many_rows waiter_row) w.rows
        (Requests.waiters (client url) json w.server)

  unfoldable pub stats_command : Text → Session W P → Finished W P
  unfolding one_row after_answer
  stats_command url w =
      after_answer add_row (one_row stats_row) w.rows (Requests.stats (client url) json w.server)

  unfoldable pub config_command : Text → Session W P → Finished W P
  unfolding one_row after_answer
  config_command url w =
      after_answer add_row (one_row config_row) w.rows (Requests.config (client url) json w.server)

  unfoldable pub schema_command : Text → Session W P → Finished W P
  unfolding one_row after_answer
  schema_command url w =
      after_answer add_row (one_row schema_row) w.rows (Requests.schema (client url) json w.server)

  unfoldable pub health_command : Text → Session W P → Finished W P
  unfolding one_row after_answer
  health_command url w =
      after_answer add_row (one_row (λ up. health_row up url)) w.rows
        (Requests.health (client url) json w.server)

  unfoldable pub notify_test_command : Text → Text → Session W P → Finished W P
  unfolding one_row after_answer
  notify_test_command url space w =
      after_answer add_row (one_row notify_test_row) w.rows
        (Requests.notify_test (client url) json space w.server)

  unfoldable pub get_command : Text → ℤ → Session W P → Finished W P
  unfolding one_row after_answer
  get_command url id w =
      after_answer add_row (one_row tuple_row) w.rows
        (Requests.get_tuple (client url) json id w.server)

  unfoldable pub delete_command : Text → ℤ → Session W P → Finished W P
  unfolding one_row after_answer
  delete_command url id w =
      after_answer add_row (one_row delete_row) w.rows
        (Requests.delete_tuple (client url) json id w.server)
