-- ===== src/Persistence/Table.antt =====
-- app/Entities/odb/User-odb.cxx over the table "User": what PostgreSQL does with the statements, and
-- `odb::database`, which forwards its calls to the generated code.
pub mod OnServer
pub mod Forwarded
pub mod Laws
pub mod Kept
use ccfolio.Common.{
  ℕ, ◌≡◌, List, [], ◌∷◌, ◌++◌, Bool, true, false, not, map, length, Option, none, some,
}
use ccfolio.Common.Text.{Str, str_eq}
use ccfolio.Common.Effect.{M, Outcome, ok, throw, Throws}
use ccfolio.External.Pgsql.{Runtime, Server, Result, int_cell}
use ccfolio.External.Odb.{Odb}
use ccfolio.External.Odb.Laws.{select, replace}
use ccfolio.Entities.User.{User}
use ccfolio.Repositories.UserRepository.Lookup.{user_schema}
use ccfolio.Persistence.Image.Copies.{cells_of}
use ccfolio.Persistence.Texts.{
  persist_statement, find_statement, update_statement, erase_statement, QueryBase, query_of,
  QueryColumn, username_column, table_name,
}
use ccfolio.Persistence.Statements.{Connection}
use ccfolio.Persistence.Traits.{persist, update, erase, find, query}
use ccfolio.Persistence.Traits.Found.{IsReady}
use mathlib.Core.List.{Perm}

abbrev pub rows_with : ℕ → List User → List User
rows_with id = select (user_schema.has_id id)

abbrev pub rows_without : ℕ → List User → List User
rows_without id = select (λ user. not (user_schema.has_id id user))

-- What PostgreSQL documents of the statements, for the statements as they are written. `rows` is what
-- is stored, `view` what the open transaction sees.
pub record ServerLaws {S : Type 0} (sv : Server S) : Type 0 where
  pub rows : S → List User
  pub view : S → List User
  -- which rows a condition of the library's accepts
  pub accepts : QueryBase → User → Bool
  pub begin_rows : (s : S) → rows (sv.begin s).1 ≡ rows s
  pub begin_view : (s : S) → (sv.begin s).0 ≡ ok tt → view (sv.begin s).1 ≡ rows s
  pub commit_ok : (s : S) → (sv.commit s).0 ≡ ok tt → rows (sv.commit s).1 ≡ view s
  pub commit_failed : (s : S) → Throws (sv.commit s).0 → rows (sv.commit s).1 ≡ rows s
  pub rollback_rows : (s : S) → rows (sv.rollback s) ≡ rows s
  pub insert_rows :
      (o : User) (s : S) → rows (sv.execute persist_statement (cells_of o) s).1 ≡ rows s
  pub insert_view :
      (o : User) (s : S) (r : Result) (key : ℕ)
      → (sv.execute persist_statement (cells_of o) s).0 ≡ ok r
      → r.returned ≡ some key
      → view (sv.execute persist_statement (cells_of o) s).1 ≡ view s ++ record o { id = key } ∷ []
  pub find_rows :
      (id : ℕ) (s : S) → rows (sv.execute find_statement (int_cell id false ∷ []) s).1 ≡ rows s
  pub find_view :
      (id : ℕ) (s : S) → view (sv.execute find_statement (int_cell id false ∷ []) s).1 ≡ view s
  pub find_result :
      (id : ℕ) (s : S) (r : Result)
      → (sv.execute find_statement (int_cell id false ∷ []) s).0 ≡ ok r
      → Perm r.rows (rows_with id (view s))
  pub update_rows :
      (o : User) (s : S)
      → rows (sv.execute update_statement (cells_of o ++ int_cell o.id false ∷ []) s).1 ≡ rows s
  pub update_view :
      (o : User) (s : S) (r : Result)
      → (sv.execute update_statement (cells_of o ++ int_cell o.id false ∷ []) s).0 ≡ ok r
      → Perm
          (view (sv.execute update_statement (cells_of o ++ int_cell o.id false ∷ []) s).1)
          (map (replace user_schema o) (view s))
  pub erase_rows :
      (id : ℕ) (s : S) → rows (sv.execute erase_statement (int_cell id false ∷ []) s).1 ≡ rows s
  pub erase_view :
      (id : ℕ) (s : S) (r : Result)
      → (sv.execute erase_statement (int_cell id false ∷ []) s).0 ≡ ok r
      → Perm
          (view (sv.execute erase_statement (int_cell id false ∷ []) s).1)
          (rows_without id (view s))
  pub query_rows :
      (q : QueryBase) (s : S) → rows (sv.execute (query_of q) q.parameters s).1 ≡ rows s
  pub query_view :
      (q : QueryBase) (s : S) → view (sv.execute (query_of q) q.parameters s).1 ≡ view s
  pub query_result :
      (q : QueryBase) (s : S) (r : Result)
      → (sv.execute (query_of q) q.parameters s).0 ≡ ok r
      → Perm r.rows (select (accepts q) (view s))
  pub all_accepted : (q : QueryBase) (o : User) → q.is_empty ≡ true → accepts q o ≡ true

-- The condition `odb::query<User>::username == v`, and the absence of one.
pub record Conditions {S : Type 0} {sv : Server S} (laws : ServerLaws sv) : Type 0 where
  pub equals : QueryColumn → Str → QueryBase
  pub equals_accepts :
      (v : Str) (o : User)
      → laws.accepts (equals (username_column table_name) v) o ≡ str_eq o.username v
  pub no_condition : QueryBase
  pub no_condition_empty : no_condition.is_empty ≡ true

abbrev pub forget : Outcome User → Outcome (Unit {0})
forget (ok o) = ok tt
forget (throw x) = throw x

-- An `odb::database` whose calls go to the generated code of its connection. Where a load finds no
-- object it throws; a result is read to its end.
pub record Forwards {S : Type 0} (rt : Runtime) (sv : Server S) {laws : ServerLaws sv}
    (conditions : Conditions laws) (load_delayed : M (Connection S) (Unit {0}))
    (odb : Odb User ℕ Str) : Type 0 where
  pub conn : odb.Db → Connection S
  pub ready : (d : odb.Db) → IsReady (conn d).statements
  pub begin_outcome : (d : odb.Db) → (odb.begin d).0 ≡ (sv.begin (conn d).server).0
  pub begin_server : (d : odb.Db) → (conn (odb.begin d).1).server ≡ (sv.begin (conn d).server).1
  pub commit_outcome : (d : odb.Db) → (odb.commit d).0 ≡ (sv.commit (conn d).server).0
  pub commit_server : (d : odb.Db) → (conn (odb.commit d).1).server ≡ (sv.commit (conn d).server).1
  pub rollback_server : (d : odb.Db) → (conn (odb.rollback d)).server ≡ sv.rollback (conn d).server
  pub persist_outcome :
      (o : User) (d : odb.Db) → (odb.persist o d).0 ≡ forget (persist rt sv o (conn d)).0
  pub persist_conn :
      (o : User) (d : odb.Db) → conn (odb.persist o d).1 ≡ (persist rt sv o (conn d)).1
  pub load_outcome :
      (id : ℕ) (d : odb.Db) (o : User)
      → (odb.load id d).0 ≡ ok o
      → (find rt sv load_delayed id (conn d)).0 ≡ ok (some o)
  pub load_conn :
      (id : ℕ) (d : odb.Db) → conn (odb.load id d).1 ≡ (find rt sv load_delayed id (conn d)).1
  pub update_outcome : (o : User) (d : odb.Db) → (odb.update o d).0 ≡ (update rt sv o (conn d)).0
  pub update_conn : (o : User) (d : odb.Db) → conn (odb.update o d).1 ≡ (update rt sv o (conn d)).1
  pub erase_outcome : (id : ℕ) (d : odb.Db) → (odb.erase id d).0 ≡ (erase rt sv id (conn d)).0
  pub erase_conn : (id : ℕ) (d : odb.Db) → conn (odb.erase id d).1 ≡ (erase rt sv id (conn d)).1
  pub query_outcome :
      (v : Str) (d : odb.Db) (l : List User)
      → (odb.query v d).0 ≡ ok l
      → let q = conditions.equals (username_column table_name) v in
        (r : Result) × ((query rt sv q (conn d)).0 ≡ ok r) × (l ≡ r.rows)
  pub query_server :
      (v : Str) (d : odb.Db)
      → let q = conditions.equals (username_column table_name) v in
        (conn (odb.query v d).1).server ≡ (query rt sv q (conn d)).1.server
  pub query_all_outcome :
      (d : odb.Db) (l : List User)
      → (odb.query_all d).0 ≡ ok l
      → (r : Result) × ((query rt sv conditions.no_condition (conn d)).0 ≡ ok r) × (l ≡ r.rows)
  pub query_all_server :
      (d : odb.Db)
      → (conn (odb.query_all d).1).server ≡ (query rt sv conditions.no_condition (conn d)).1.server
