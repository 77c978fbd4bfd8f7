-- ===== src/Persistence/Table/Kept.antt =====
-- app/Entities/odb/User-odb.cxx: the generated code as the database of app/Repositories.
use ccfolio.Common.{ℕ, ◌≡◌, []}
use ccfolio.Common.Text.{Str}
use ccfolio.Common.Effect.{M, ok}
use ccfolio.External.Pgsql.{Runtime, Server}
use ccfolio.External.Pgsql.Laws.{RuntimeLaws}
use ccfolio.External.Odb.{Odb}
use ccfolio.External.Odb.Laws.{OdbLaws}
use ccfolio.Entities.User.{User}
use ccfolio.Repositories.UserRepository.Lookup.{user_schema}
use ccfolio.Persistence.Statements.{Connection}
use ccfolio.Persistence.Table.{ServerLaws, Conditions, Forwards}
use ccfolio.Persistence.Table.Forwarded.{served}
use ccfolio.Persistence.Table.Laws.{served-keeps_table}

-- Let a database forward its calls to the generated code, on connections that start with no stale
-- pointer, no lock and no delayed load. Let the runtime and PostgreSQL behave as documented on the
-- statements as they are written. Then the database behaves as the repositories rely on: `persist`
-- appends the object under a new key, `update` replaces and `erase` removes the rows with a key, `load`
-- finds one of them, a query finds exactly the rows that it asks for, and nothing is stored before a
-- commit. What is stored, and what a transaction sees, are those of the server.
pub Forwards-OdbLaws :
    {S : Type 0} (rt : Runtime) (runtime_laws : RuntimeLaws rt) (sv : Server S)
    {laws : ServerLaws sv} (conditions : Conditions laws)
    (load_delayed : M (Connection S) (Unit {0}))
    (idle : (c : Connection S) → c.statements.delayed ≡ [] → load_delayed c ≡ (ok tt, c))
    {odb : Odb User ℕ Str} (f : Forwards rt sv conditions load_delayed odb)
    → (kept : OdbLaws odb user_schema) × ((d : odb.Db) → kept.rows d ≡ laws.rows (f.conn d).server)
      × ((d : odb.Db) → kept.view d ≡ laws.view (f.conn d).server)
unfolding served
Forwards-OdbLaws rt runtime_laws sv conditions load_delayed idle f =
    served-keeps_table (served rt runtime_laws sv conditions load_delayed idle f)
