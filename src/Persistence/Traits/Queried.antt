-- ===== src/Persistence/Traits/Queried.antt =====
-- app/Entities/odb/User-odb.cxx: what `query` and `erase_query` send.
use ccfolio.Common.{◌≡◌, refl, inl, inr}
use ccfolio.Common.Effect.{pure, ◌>>=◌, Outcome-cases}
use ccfolio.External.Pgsql.{Server, Runtime}
use ccfolio.Persistence.Image.{statement_select, bind}
use ccfolio.Persistence.Texts.{QueryBase, query_of, erase_query_of}
use ccfolio.Persistence.Statements.{Connection, rebind_select}
use ccfolio.Persistence.Statements.Fresh.{IsFresh, rebind_select-IsFresh, rebind_select-binds}
use ccfolio.Persistence.Traits.{query, erase_query}
use ccfolio.Persistence.Traits.Runs.{Runs}

module _ {S : Type 0} (rt : Runtime) (sv : Server S) (c : Connection S)
    (fresh : IsFresh c.statements) (q : QueryBase) where
  pub query-Runs :
      Runs c.statements (query rt sv q c) (sv.execute (query_of q) q.parameters c.server)
  unfolding query rebind_select
  query-Runs = record {
    outcome = refl;
    server = refl;
    fresh = rebind_select-IsFresh fresh;
    locked = refl;
    delayed = refl;
  }

  -- The rows of the result are fetched through a binding that is up to date.
  pub query-binds :
      let sts = (query rt sv q c).1.statements in
      sts.select_binding.binds ≡ bind sts.image statement_select
  unfolding query rebind_select
  query-binds = rebind_select-binds fresh

  pub erase_query-Runs :
      Runs c.statements
        (erase_query rt sv q c)
        ((sv.execute (erase_query_of q) q.parameters >>= λ result. pure result.affected) c.server)
  unfolding erase_query
  erase_query-Runs = elim (Outcome-cases (sv.execute (erase_query_of q) q.parameters c.server).0) [
    | inl (result, e) ↦
        rw e
          (record { outcome = refl; server = refl; fresh = fresh; locked = refl; delayed = refl })
    | inr (x, e) ↦
        rw e
          (record { outcome = refl; server = refl; fresh = fresh; locked = refl; delayed = refl })
  ]
