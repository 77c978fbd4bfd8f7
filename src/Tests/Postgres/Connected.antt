-- ===== src/Tests/Postgres/Connected.antt =====
-- A database that forwards its calls to the generated code over the table in memory.
use ccfolio.Common.{ℕ, ◌≡◌, refl, sym, ◌∙◌, List, [], ◌∷◌, Option, none, some, false}
use ccfolio.Common.Text.{Str, text}
use ccfolio.Common.Effect.{M, Outcome, ok, throw}
use ccfolio.Common.Effect.Rules.{ok_inj}
use ccfolio.External.Pgsql.{Result}
use ccfolio.External.Odb.{Odb}
use ccfolio.Entities.User.{User}
use ccfolio.Persistence.Texts.{QueryBase, username_column, table_name}
use ccfolio.Persistence.Statements.{Connection}
use ccfolio.Persistence.Traits.{persist, update, erase, find, query}
use ccfolio.Persistence.Traits.Runs.{Runs}
use ccfolio.Persistence.Traits.Sent.{persist-Runs, update-Runs, erase-Runs}
use ccfolio.Persistence.Traits.Found.{IsReady, find-Runs}
use ccfolio.Persistence.Traits.Queried.{query-Runs}
use ccfolio.Persistence.Table.{Forwards, forget}
use ccfolio.Tests.Database.{Table}
use ccfolio.Tests.Postgres.{runtime, runtime_laws, new_statements}
use ccfolio.Tests.Postgres.Executed.{server}
use ccfolio.Tests.Postgres.Answers.{conditions}

abbrev pub Conn : Type 0
Conn = Connection Table

abbrev pub Ready : Type 0
Ready = (c : Conn) × IsReady c.statements

abbrev pub load_delayed : M Conn (Unit {0})
load_delayed c = (ok tt, c)

pub still-IsReady :
    {A : Type 0} (c : Conn) (r : Outcome A × Conn) (d : Outcome A × Table)
    → IsReady c.statements
    → Runs c.statements r d
    → IsReady r.1.statements
still-IsReady c r d ready runs = record {
  fresh = runs.fresh;
  unlocked = runs.locked ∙ ready.unlocked;
  nothing_delayed = runs.delayed ∙ ready.nothing_delayed;
}

abbrev pub loaded : Outcome (Option User) → Outcome User
loaded (ok (some o)) = ok o
loaded (ok none) = throw runtime.object_not_persistent
loaded (throw x) = throw x

abbrev pub read_rows : Outcome Result → Outcome (List User)
read_rows (ok r) = ok r.rows
read_rows (throw x) = throw x

pub persist_ready : (o : User) (d : Ready) → IsReady (persist runtime server o d.0).1.statements
persist_ready o (c, ready) =
    still-IsReady c _ _ ready (persist-Runs runtime runtime_laws server c ready.fresh o)

pub update_ready : (o : User) (d : Ready) → IsReady (update runtime server o d.0).1.statements
update_ready o (c, ready) =
    still-IsReady c _ _ ready (update-Runs runtime runtime_laws server c ready.fresh o)

pub erase_ready : (id : ℕ) (d : Ready) → IsReady (erase runtime server id d.0).1.statements
erase_ready id (c, ready) =
    still-IsReady c _ _ ready (erase-Runs runtime runtime_laws server c ready.fresh id)

pub find_ready :
    (id : ℕ) (d : Ready) → IsReady (find runtime server load_delayed id d.0).1.statements
find_ready id (c, ready) =
    still-IsReady c _ _ ready
      (find-Runs runtime server runtime_laws load_delayed (λ c e. refl) c ready id)

abbrev pub by_name : Str → QueryBase
by_name v = conditions.equals (username_column table_name) v

pub query_ready : (q : QueryBase) (d : Ready) → IsReady (query runtime server q d.0).1.statements
query_ready q (c, ready) = still-IsReady c _ _ ready (query-Runs runtime server c ready.fresh q)

pub served_ready : (t : Table) (d : Ready) → IsReady (record d.0 { server = t }).statements
served_ready t (c, ready) = ready

abbrev pub odb : Odb User ℕ Str
odb = record {
  Db = Ready;
  begin = λ d.
      let r = server.begin d.0.server in (r.0, (record d.0 { server = r.1 }, served_ready r.1 d));
  commit = λ d.
      let r = server.commit d.0.server in (r.0, (record d.0 { server = r.1 }, served_ready r.1 d));
  rollback = λ d. d;
  persist = λ o d. let r = persist runtime server o d.0 in (forget r.0, (r.1, persist_ready o d));
  load = λ id d.
      let r = find runtime server load_delayed id d.0 in (loaded r.0, (r.1, find_ready id d));
  update = λ o d. let r = update runtime server o d.0 in (r.0, (r.1, update_ready o d));
  erase = λ id d. let r = erase runtime server id d.0 in (r.0, (r.1, erase_ready id d));
  query_all = λ d.
      let r = query runtime server conditions.no_condition d.0 in
      (read_rows r.0, (r.1, query_ready conditions.no_condition d));
  query = λ v d.
      let r = query runtime server (by_name v) d.0 in
      (read_rows r.0, (r.1, query_ready (by_name v) d));
}

pub loaded-ok : (r : Outcome (Option User)) (o : User) → loaded r ≡ ok o → r ≡ ok (some o)
loaded-ok (ok (some u)) o e = let same = ok_inj e in cc
loaded-ok (ok none) o e = cc
loaded-ok (throw x) o e = cc

pub read_rows-ok :
    (r : Outcome Result) (l : List User)
    → read_rows r ≡ ok l
    → (s : Result) × (r ≡ ok s) × (l ≡ s.rows)
read_rows-ok (ok s) l e = (s, refl, sym (ok_inj e))
read_rows-ok (throw x) l e = cc

abbrev pub forwards : Forwards runtime server conditions load_delayed odb
forwards = record {
  conn = λ d. d.0;
  ready = λ d. d.1;
  begin_outcome = λ d. refl;
  begin_server = λ d. refl;
  commit_outcome = λ d. refl;
  commit_server = λ d. refl;
  rollback_server = λ d. refl;
  persist_outcome = λ o d. refl;
  persist_conn = λ o d. refl;
  load_outcome = λ id d o e. loaded-ok _ o e;
  load_conn = λ id d. refl;
  update_outcome = λ o d. refl;
  update_conn = λ o d. refl;
  erase_outcome = λ id d. refl;
  erase_conn = λ id d. refl;
  query_outcome = λ v d l e. read_rows-ok _ l e;
  query_server = λ v d. refl;
  query_all_outcome = λ d l e. read_rows-ok _ l e;
  query_all_server = λ d. refl;
}

-- A connection to a table with one row.
abbrev pub ann : User
ann = record { id = 1; username = text "annabel"; password_hash = text "hash"; salt = text "s" }

abbrev pub connected : Conn
connected = record {
  server = record { stored = ann ∷ []; seen = ann ∷ []; next = 2; query_down = false };
  statements = new_statements;
}
