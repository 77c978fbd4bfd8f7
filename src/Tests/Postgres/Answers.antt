-- ===== src/Tests/Postgres/Answers.antt =====
-- What the table in memory answers is what PostgreSQL documents.
use ccfolio.Common.{
  ℕ, ◌≡◌, refl, ap, subst, sym, inl, inr, List, [], ◌∷◌, ◌++◌, true, false, map, some, Bool-cases,
  some_inj, ◌∙◌,
}
use ccfolio.Common.Text.{Str, text, str_eq}
use ccfolio.Common.Effect.{Exception, Outcome, ok, throw}
use ccfolio.Common.Effect.Rules.{ok_inj}
use ccfolio.External.Pgsql.{Result, Cell, int_cell, text_cell, text_oid}
use ccfolio.External.Odb.Laws.{select, replace}
use ccfolio.Entities.User.{User}
use ccfolio.Repositories.UserRepository.Lookup.{user_schema}
use ccfolio.Persistence.Texts.{
  persist_statement, find_statement, update_statement, erase_statement, QueryBase, query_of,
  query_statement, QueryColumn, username_column, table_name,
}
use ccfolio.Persistence.Image.Copies.{cells_of}
use ccfolio.Persistence.Table.{ServerLaws, Conditions, rows_with, rows_without}
use ccfolio.Tests.Database.{Table}
use mathlib.Core.List.{Perm}
use mathlib.Core.List.Perm
use ccfolio.Tests.Postgres.Executed.{
  insert, select_key, set_row, remove, accepts, select_rows, run, server, selected,
}

query_text : (q : QueryBase) → str_eq (query_of q).text query_statement ≡ q.is_empty
unfolding query_of str_eq text
query_text q = elim (Bool-cases q.is_empty) [ inl e ↦ rw e | inr e ↦ rw e ]

run-query_of :
    (q : QueryBase) (cells : List Cell) (t : Table)
    → run (query_of q) cells t ≡ select_rows (str_eq (query_of q).text query_statement) cells t
unfolding run query_of str_eq text
run-query_of q cells t = refl

pub run-query :
    (q : QueryBase) (t : Table)
    → run (query_of q) q.parameters t ≡ (ok (selected (select (accepts q) t.seen)), t)
unfolding select_rows accepts
run-query q t =
    run-query_of q q.parameters t ∙ ap (λ b. select_rows b q.parameters t) (query_text q)

pub run-persist : (cells : List Cell) (t : Table) → run persist_statement cells t ≡ insert cells t
unfolding run str_eq text
run-persist cells t = refl

run-find : (cells : List Cell) (t : Table) → run find_statement cells t ≡ select_key cells t
unfolding run str_eq text
run-find cells t = refl

run-update : (cells : List Cell) (t : Table) → run update_statement cells t ≡ set_row cells t
unfolding run str_eq text
run-update cells t = refl

run-erase : (cells : List Cell) (t : Table) → run erase_statement cells t ≡ remove cells t
unfolding run str_eq text
run-erase cells t = refl

-- The key that an insertion returns is the one that it has used.
pub insert_view :
    (o : User) (t : Table) (r : Result) (key : ℕ)
    → (insert (cells_of o) t).0 ≡ ok r
    → r.returned ≡ some key
    → (insert (cells_of o) t).1.seen ≡ t.seen ++ record o { id = key } ∷ []
unfolding insert
insert_view o t r key e k =
    let returned : some t.next ≡ some key = ap (λ (r : Result). r.returned) (ok_inj e) ∙ k in
    ap (λ n. t.seen ++ record o { id = n } ∷ []) (some_inj returned)

pub insert_rows :
    (o : User) (t : Table) → (server.execute persist_statement (cells_of o) t).1.stored ≡ t.stored
unfolding insert
insert_rows o t = ap (λ r. r.1.stored) (run-persist (cells_of o) t)

abbrev pub first_outcome : Outcome Result × Table → Outcome Result
first_outcome r = r.0

pub find_result :
    (id : ℕ) (t : Table) (r : Result)
    → (run find_statement (int_cell id false ∷ []) t).0 ≡ ok r
    → Perm r.rows (rows_with id t.seen)
unfolding select_key
find_result id t r e =
    subst (λ (k : Result). Perm k.rows (rows_with id t.seen))
      (ok_inj (sym (ap first_outcome (run-find (int_cell id false ∷ []) t)) ∙ e)) (Perm.refl _)

pub query_result :
    (q : QueryBase) (t : Table) (r : Result)
    → (run (query_of q) q.parameters t).0 ≡ ok r
    → Perm r.rows (select (accepts q) t.seen)
query_result q t r e =
    subst (λ (k : Result). Perm k.rows (select (accepts q) t.seen))
      (ok_inj (sym (ap first_outcome (run-query q t)) ∙ e)) (Perm.refl _)

pub all_accepted : (q : QueryBase) (o : User) → q.is_empty ≡ true → accepts q o ≡ true
unfolding accepts
all_accepted q o e = rw e

abbrev pub table_after : Outcome Result × Table → Table
table_after r = r.1

pub find_state :
    (id : ℕ) (t : Table) → table_after (run find_statement (int_cell id false ∷ []) t) ≡ t
unfolding select_key
find_state id t = ap table_after (run-find (int_cell id false ∷ []) t)

abbrev pub updated : User → Table → Table
updated o t = record t { seen = map (replace user_schema o) t.seen }

pub update_state :
    (o : User) (t : Table)
    → table_after (run update_statement (cells_of o ++ int_cell o.id false ∷ []) t) ≡ updated o t
unfolding set_row
update_state o t = ap table_after (run-update (cells_of o ++ int_cell o.id false ∷ []) t)

abbrev pub erased : ℕ → Table → Table
erased id t = record t { seen = rows_without id t.seen }

pub erase_state :
    (id : ℕ) (t : Table)
    → table_after (run erase_statement (int_cell id false ∷ []) t) ≡ erased id t
unfolding remove
erase_state id t = ap table_after (run-erase (int_cell id false ∷ []) t)

abbrev pub view : Table → List User
view t = t.seen

abbrev pub rows : Table → List User
rows t = t.stored

pub same_rows : {a b : List User} → a ≡ b → Perm a b
same_rows {a} e = subst (λ l. Perm a l) e (Perm.refl a)

pub commit_failed :
    (t : Table) (x : Exception) → (server.commit t).0 ≡ throw x → rows (server.commit t).1 ≡ rows t
commit_failed t x e = cc

abbrev pub server_laws : ServerLaws server
server_laws = record {
  rows = rows;
  view = view;
  accepts = accepts;
  begin_rows = λ t. refl;
  begin_view = λ t e. refl;
  commit_ok = λ t e. refl;
  commit_failed = λ t x. commit_failed t x.0 x.1;
  rollback_rows = λ t. refl;
  insert_rows = insert_rows;
  insert_view = λ o t r key e k.
      ap (λ r. view (table_after r)) (run-persist (cells_of o) t)
      ∙ insert_view o t r key (sym (ap first_outcome (run-persist (cells_of o) t)) ∙ e) k;
  find_rows = λ id t. ap rows (find_state id t);
  find_view = λ id t. ap view (find_state id t);
  find_result = find_result;
  update_rows = λ o t. ap rows (update_state o t);
  update_view = λ o t r e. same_rows (ap view (update_state o t));
  erase_rows = λ id t. ap rows (erase_state id t);
  erase_view = λ id t r e. same_rows (ap view (erase_state id t));
  query_rows = λ q t. ap (λ r. rows (table_after r)) (run-query q t);
  query_view = λ q t. ap (λ r. view (table_after r)) (run-query q t);
  query_result = query_result;
  all_accepted = all_accepted;
}

abbrev pub named_condition : QueryColumn → Str → QueryBase
named_condition c v = record {
  is_empty = false;
  clause = c.table ++ text "." ++ c.column ++ text "=$1";
  types = text_oid ∷ [];
  parameters = text_cell v false ∷ [];
}

pub equals_accepts :
    (v : Str) (o : User)
    → accepts (named_condition (username_column table_name) v) o ≡ str_eq o.username v
unfolding accepts
equals_accepts v o = refl

abbrev pub conditions : Conditions server_laws
conditions = record {
  equals = named_condition;
  equals_accepts = equals_accepts;
  no_condition = record { is_empty = true; clause = []; types = []; parameters = [] };
  no_condition_empty = refl;
}
