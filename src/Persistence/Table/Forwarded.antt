-- ===== src/Persistence/Table/Forwarded.antt =====
-- app/Entities/odb/User-odb.cxx: what the calls that `odb::database` forwards do on the server.
use ccfolio.Common.{ℕ, ◌≡◌, ap, sym, ◌∙◌, List, [], none, some}
use ccfolio.Common.Text.{Str}
use ccfolio.Common.Effect.{M, ok}
use ccfolio.External.Pgsql.{Runtime, Server, Result}
use ccfolio.External.Pgsql.Laws.{RuntimeLaws}
use ccfolio.External.Odb.{Odb}
use ccfolio.Entities.User.{User}
use ccfolio.Persistence.Texts.{query_of, username_column, table_name}
use ccfolio.Persistence.Statements.{Connection}
use ccfolio.Persistence.Traits.Runs.{persist_on, update_on, erase_on}
use ccfolio.Persistence.Traits.Sent.{persist-Runs, update-Runs, erase-Runs}
use ccfolio.Persistence.Traits.Found.{find_on, find-Runs}
use ccfolio.Persistence.Traits.Queried.{query-Runs}
use ccfolio.Persistence.Table.{ServerLaws, Conditions, Forwards, forget}

-- A database whose calls come to statements on a server, without bindings and buffers.
pub record Served {S : Type 0} (rt : Runtime) (sv : Server S) {laws : ServerLaws sv}
    (conditions : Conditions laws) (odb : Odb User ℕ Str) : Type 0 where
  pub server : odb.Db → S
  pub begin_ok : (d : odb.Db) → (odb.begin d).0 ≡ (sv.begin (server d)).0
  pub begin_state : (d : odb.Db) → server (odb.begin d).1 ≡ (sv.begin (server d)).1
  pub commit_outcome : (d : odb.Db) → (odb.commit d).0 ≡ (sv.commit (server d)).0
  pub commit_state : (d : odb.Db) → server (odb.commit d).1 ≡ (sv.commit (server d)).1
  pub rollback_state : (d : odb.Db) → server (odb.rollback d) ≡ sv.rollback (server d)
  pub persist_state :
      (o : User) (d : odb.Db) → server (odb.persist o d).1 ≡ (persist_on rt sv o (server d)).1
  pub persist_ok :
      (o : User) (d : odb.Db) → (odb.persist o d).0 ≡ forget (persist_on rt sv o (server d)).0
  pub update_state :
      (o : User) (d : odb.Db) → server (odb.update o d).1 ≡ (update_on rt sv o (server d)).1
  pub update_ok : (o : User) (d : odb.Db) → (odb.update o d).0 ≡ (update_on rt sv o (server d)).0
  pub erase_state :
      (id : ℕ) (d : odb.Db) → server (odb.erase id d).1 ≡ (erase_on rt sv id (server d)).1
  pub erase_ok : (id : ℕ) (d : odb.Db) → (odb.erase id d).0 ≡ (erase_on rt sv id (server d)).0
  pub load_state :
      (id : ℕ) (d : odb.Db)
      → server (odb.load id d).1 ≡ (find_on rt sv none (λ u. some u) id (server d)).1
  pub load_ok :
      (id : ℕ) (d : odb.Db) (o : User)
      → (odb.load id d).0 ≡ ok o
      → (find_on rt sv none (λ u. some u) id (server d)).0 ≡ ok (some o)
  pub query_state :
      (v : Str) (d : odb.Db)
      → let q = conditions.equals (username_column table_name) v in
        server (odb.query v d).1 ≡ (sv.execute (query_of q) q.parameters (server d)).1
  pub query_all_state :
      (d : odb.Db)
      → let q = conditions.no_condition in
        server (odb.query_all d).1 ≡ (sv.execute (query_of q) q.parameters (server d)).1
  pub query_ok :
      (v : Str) (d : odb.Db) (l : List User)
      → (odb.query v d).0 ≡ ok l
      → let q = conditions.equals (username_column table_name) v in
        (r : Result) × ((sv.execute (query_of q) q.parameters (server d)).0 ≡ ok r) × (l ≡ r.rows)
  pub query_all_ok :
      (d : odb.Db) (l : List User)
      → (odb.query_all d).0 ≡ ok l
      → let q = conditions.no_condition in
        (r : Result) × ((sv.execute (query_of q) q.parameters (server d)).0 ≡ ok r) × (l ≡ r.rows)

module _ {S : Type 0} (rt : Runtime) (runtime_laws : RuntimeLaws rt) (sv : Server S)
    {laws : ServerLaws sv} (conditions : Conditions laws)
    (load_delayed : M (Connection S) (Unit {0}))
    (idle : (c : Connection S) → c.statements.delayed ≡ [] → load_delayed c ≡ (ok tt, c))
    {odb : Odb User ℕ Str} (f : Forwards rt sv conditions load_delayed odb) where
  abbrev pub server : odb.Db → S
  server d = (f.conn d).server

  pub persist_state :
      (o : User) (d : odb.Db) → server (odb.persist o d).1 ≡ (persist_on rt sv o (server d)).1
  persist_state o d =
      ap (λ (c : Connection S). c.server) (f.persist_conn o d)
      ∙ (persist-Runs rt runtime_laws sv (f.conn d) (f.ready d).fresh o).server

  pub persist_ok :
      (o : User) (d : odb.Db) → (odb.persist o d).0 ≡ forget (persist_on rt sv o (server d)).0
  persist_ok o d =
      f.persist_outcome o d
      ∙ ap forget (persist-Runs rt runtime_laws sv (f.conn d) (f.ready d).fresh o).outcome

  pub update_state :
      (o : User) (d : odb.Db) → server (odb.update o d).1 ≡ (update_on rt sv o (server d)).1
  update_state o d =
      ap (λ (c : Connection S). c.server) (f.update_conn o d)
      ∙ (update-Runs rt runtime_laws sv (f.conn d) (f.ready d).fresh o).server

  pub update_ok : (o : User) (d : odb.Db) → (odb.update o d).0 ≡ (update_on rt sv o (server d)).0
  update_ok o d =
      f.update_outcome o d ∙ (update-Runs rt runtime_laws sv (f.conn d) (f.ready d).fresh o).outcome

  pub erase_state :
      (id : ℕ) (d : odb.Db) → server (odb.erase id d).1 ≡ (erase_on rt sv id (server d)).1
  erase_state id d =
      ap (λ (c : Connection S). c.server) (f.erase_conn id d)
      ∙ (erase-Runs rt runtime_laws sv (f.conn d) (f.ready d).fresh id).server

  pub erase_ok : (id : ℕ) (d : odb.Db) → (odb.erase id d).0 ≡ (erase_on rt sv id (server d)).0
  erase_ok id d =
      f.erase_outcome id d ∙ (erase-Runs rt runtime_laws sv (f.conn d) (f.ready d).fresh id).outcome

  pub load_state :
      (id : ℕ) (d : odb.Db)
      → server (odb.load id d).1 ≡ (find_on rt sv none (λ u. some u) id (server d)).1
  load_state id d =
      ap (λ (c : Connection S). c.server) (f.load_conn id d)
      ∙ (find-Runs rt sv runtime_laws load_delayed idle (f.conn d) (f.ready d) id).server

  pub load_ok :
      (id : ℕ) (d : odb.Db) (o : User)
      → (odb.load id d).0 ≡ ok o
      → (find_on rt sv none (λ u. some u) id (server d)).0 ≡ ok (some o)
  load_ok id d o e =
      sym (find-Runs rt sv runtime_laws load_delayed idle (f.conn d) (f.ready d) id).outcome
      ∙ f.load_outcome id d o e

  pub query_state :
      (v : Str) (d : odb.Db)
      → let q = conditions.equals (username_column table_name) v in
        server (odb.query v d).1 ≡ (sv.execute (query_of q) q.parameters (server d)).1
  query_state v d = f.query_server v d ∙ (query-Runs rt sv (f.conn d) (f.ready d).fresh _).server

  pub query_all_state :
      (d : odb.Db)
      → let q = conditions.no_condition in
        server (odb.query_all d).1 ≡ (sv.execute (query_of q) q.parameters (server d)).1
  query_all_state d =
      f.query_all_server d ∙ (query-Runs rt sv (f.conn d) (f.ready d).fresh _).server

  pub query_ok :
      (v : Str) (d : odb.Db) (l : List User)
      → (odb.query v d).0 ≡ ok l
      → let q = conditions.equals (username_column table_name) v in
        (r : Result) × ((sv.execute (query_of q) q.parameters (server d)).0 ≡ ok r) × (l ≡ r.rows)
  query_ok v d l e =
      let read = f.query_outcome v d l e in
      (read.0, sym (query-Runs rt sv (f.conn d) (f.ready d).fresh _).outcome ∙ read.1, read.2)

  pub query_all_ok :
      (d : odb.Db) (l : List User)
      → (odb.query_all d).0 ≡ ok l
      → let q = conditions.no_condition in
        (r : Result) × ((sv.execute (query_of q) q.parameters (server d)).0 ≡ ok r) × (l ≡ r.rows)
  query_all_ok d l e =
      let read = f.query_all_outcome d l e in
      (read.0, sym (query-Runs rt sv (f.conn d) (f.ready d).fresh _).outcome ∙ read.1, read.2)

  unfoldable pub served : Served rt sv conditions odb
  served = record {
    server = server;
    begin_ok = f.begin_outcome;
    begin_state = f.begin_server;
    commit_outcome = f.commit_outcome;
    commit_state = f.commit_server;
    rollback_state = f.rollback_server;
    persist_state = persist_state;
    persist_ok = persist_ok;
    update_state = update_state;
    update_ok = update_ok;
    erase_state = erase_state;
    erase_ok = erase_ok;
    load_state = load_state;
    load_ok = load_ok;
    query_state = query_state;
    query_ok = query_ok;
    query_all_state = query_all_state;
    query_all_ok = query_all_ok;
  }
