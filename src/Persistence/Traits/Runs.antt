-- ===== src/Persistence/Traits/Runs.antt =====
-- app/Entities/odb/User-odb.cxx: what an operation comes to on the server, without bindings and
-- buffers.
use ccfolio.Common.{
  ℕ, ◌≡◌, refl, sym, subst, inl, inr, List, [], ◌∷◌, ◌++◌, false, ◌==◌, if◌then◌else◌, Option, none,
  some,
}
use ccfolio.Common.Effect.{M, pure, raise, ◌>>=◌, Outcome, continue, Outcome-cases}
use ccfolio.External.Pgsql.{Runtime, Server, Statement, Result, Cell, int_cell}
use ccfolio.Entities.User.{User}
use ccfolio.Persistence.Image.Copies.{cells_of}
use ccfolio.Persistence.Texts.{persist_statement, update_statement, erase_statement}
use ccfolio.Persistence.Statements.{Connection, Statements}
use ccfolio.Persistence.Statements.Fresh.{IsFresh}
use ccfolio.Persistence.Traits.{execute, send}

-- An operation on a connection came out as its description on the server did; no pointer is stale
-- afterwards, and the lock and the delayed loads are as they were.
pub record Runs {S A : Type 0} (before : Statements) (r : Outcome A × Connection S)
    (described : Outcome A × S) : Type 0 where
  pub outcome : r.0 ≡ described.0
  pub server : r.1.server ≡ described.1
  pub fresh : IsFresh r.1.statements
  pub locked : r.1.statements.locked ≡ before.locked
  pub delayed : r.1.statements.delayed ≡ before.delayed

module _ {S : Type 0} (rt : Runtime) (sv : Server S) where
  pub Runs-send :
      {A : Type 0} (st : Statement) (f : Statements → Option (List Cell)) (cells : List Cell)
      (k : Result → M (Connection S) A) (k' : Result → M S A) (before : Statements)
      (c : Connection S)
      → f c.statements ≡ some cells
      → IsFresh c.statements
      → c.statements.locked ≡ before.locked
      → c.statements.delayed ≡ before.delayed
      → ((a : Result) (s : S) → Runs before (k a (record c { server = s })) (k' a s))
      → Runs before ((send rt sv st f >>= k) c) ((sv.execute st cells >>= k') c.server)
  Runs-send st f cells k k' before c e fresh locked delayed next =
      subst
        (λ o.
          Runs before (continue k (execute rt sv st o c)) ((sv.execute st cells >>= k') c.server))
        (sym e)
        (elim (Outcome-cases (sv.execute st cells c.server).0) [
          | inl (a, g) ↦ rw g (next a (sv.execute st cells c.server).1)
          | inr (x, g) ↦ rw g (record {
            outcome = refl;
            server = refl;
            fresh = fresh;
            locked = locked;
            delayed = delayed;
          })
        ])

  unfoldable pub given_key : User → Option ℕ → M S User
  given_key o none = raise rt.object_already_persistent
  given_key o (some key) = pure (record o { id = key })

  -- `persist` without bindings and buffers: the texts of the object, and the key that comes back.
  unfoldable pub persist_on : User → M S User
  unfolding given_key
  persist_on o = do result ← sv.execute persist_statement (cells_of o); given_key o result.returned

  unfoldable pub update_on : User → M S (Unit {0})
  update_on o = do
    result ← sv.execute update_statement (cells_of o ++ int_cell o.id false ∷ [])
    if result.affected == 0 then raise rt.object_not_persistent else pure tt

  unfoldable pub erase_on : ℕ → M S (Unit {0})
  erase_on id = do
    result ← sv.execute erase_statement (int_cell id false ∷ [])
    if result.affected == 1 then pure tt else raise rt.object_not_persistent
