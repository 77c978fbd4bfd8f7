-- ===== src/Tests/Postgres/Executed.antt =====
-- The table in memory as a server that executes the statements by their names.
use ccfolio.Common.{
  suc, List, [], ◌∷◌, ◌++◌, Bool, true, false, map, length, none, some, if◌then◌else◌,
}
use ccfolio.Common.Text.{text, str_eq}
use ccfolio.Common.Effect.{Outcome, ok, throw, odb_error}
use ccfolio.External.Pgsql.{Server, Statement, Result, Cell, int_cell, text_cell}
use ccfolio.External.Odb.Laws.{select, replace}
use ccfolio.Entities.User.{User}
use ccfolio.Repositories.UserRepository.Lookup.{user_schema}
use ccfolio.Persistence.Texts.{QueryBase, query_statement}
use ccfolio.Persistence.Table.{rows_with, rows_without}
use ccfolio.Tests.Database.{Table}

abbrev pub refused : Table → Outcome Result × Table
refused t = (throw (odb_error (text "syntax error")), t)

abbrev pub selected : List User → Result
selected rows = record { returned = none; rows = rows; affected = length rows }

unfoldable pub insert : List Cell → Table → Outcome Result × Table
insert (text_cell u _ ∷ text_cell p _ ∷ text_cell s _ ∷ []) t = (
  ok (record { returned = some t.next; rows = []; affected = 1 }),
  record t {
    seen = t.seen ++ record { id = t.next; username = u; password_hash = p; salt = s } ∷ [];
    next = suc t.next;
  },
)
insert _ t = refused t

unfoldable pub select_key : List Cell → Table → Outcome Result × Table
select_key (int_cell id _ ∷ []) t = (ok (selected (rows_with id t.seen)), t)
select_key _ t = refused t

unfoldable pub set_row : List Cell → Table → Outcome Result × Table
set_row (text_cell u _ ∷ text_cell p _ ∷ text_cell s _ ∷ int_cell id _ ∷ []) t =
    let o : User = record { id = id; username = u; password_hash = p; salt = s } in
    (
      ok (record { returned = none; rows = []; affected = length (rows_with id t.seen) }),
      record t { seen = map (replace user_schema o) t.seen },
    )
set_row _ t = refused t

unfoldable pub remove : List Cell → Table → Outcome Result × Table
remove (int_cell id _ ∷ []) t = (
  ok (record { returned = none; rows = []; affected = length (rows_with id t.seen) }),
  record t { seen = rows_without id t.seen },
)
remove _ t = refused t

unfoldable pub accepts_cells : List Cell → User → Bool
accepts_cells (text_cell v _ ∷ _) o = str_eq o.username v
accepts_cells _ o = false

unfoldable pub accepts : QueryBase → User → Bool
unfolding accepts_cells
accepts q o = if q.is_empty then true else accepts_cells q.parameters o

unfoldable pub select_rows : Bool → List Cell → Table → Outcome Result × Table
unfolding accepts_cells
select_rows all cells t =
    (ok (selected (select (λ o. if all then true else accepts_cells cells o) t.seen)), t)

unfoldable pub run : Statement → List Cell → Table → Outcome Result × Table
unfolding insert select_key set_row remove select_rows
run st cells t =
    if str_eq st.name (text "persist_User")
    then insert cells t
    else if str_eq st.name (text "find_User")
    then select_key cells t
    else if str_eq st.name (text "update_User")
    then set_row cells t
    else if str_eq st.name (text "erase_User")
    then remove cells t
    else if str_eq st.name (text "query_User")
    then select_rows (str_eq st.text query_statement) cells t
    else refused t

abbrev pub server : Server Table
server = record {
  begin = λ t. (ok tt, record t { seen = t.stored });
  commit = λ t. (ok tt, record t { stored = t.seen });
  rollback = λ t. t;
  execute = run;
}
