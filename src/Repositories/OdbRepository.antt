-- ===== src/Repositories/OdbRepository.antt =====
-- app/Repositories/OdbRepository.h: the five operations, each in a transaction of its own.
pub mod Perform
pub mod Atomic
pub mod Operation
use ccfolio.Common.{Bool, true, List, [], ◌∷◌, ◌++◌}
use ccfolio.Common.Text.{Str, text}
use ccfolio.Common.Effect.{
  Exception, connection_lost, M, pure, ◌>>=◌, ◌>>◌, try_catch, Outcome, ok, throw, recover,
  continue,
}
use ccfolio.External.World.{World, on_db, log_error}
use ccfolio.External.Odb.{Odb, Exit, committed, transaction}
use ccfolio.Entities.OperationResult.{
  Default, OperationResult, success_result, failure_result, bool_default, list_default,
}

abbrev pub try_later : Str
try_later = text "Something happened, please try again later."

-- The two `catch` clauses of every operation, for `odb::connection_lost` and `std::exception`.
unfoldable pub on_failure :
    {D A : Type 0} ⦃d : Default A⦄ → Exception → M (World D) (OperationResult A)
on_failure (connection_lost m) = do log_error (connection_lost m); pure (failure_result try_later)
on_failure e = do log_error e; pure (failure_result try_later)

-- `for (const auto &entity : result) entities.push_back(entity);`
unfoldable pub push_all {ℓ} : {A : Type ℓ} → List A → List A → List A
push_all entities [] = entities
push_all entities (entity ∷ result) = push_all (entities ++ entity ∷ []) result

module _ {T IdType Q : Type 0} ⦃d : Default T⦄ (odb : Odb T IdType Q) where
  unfoldable pub create : T → M (World odb.Db) (OperationResult Bool)
  create entity =
      try_catch
        (transaction odb
          do on_db (odb.persist entity); on_db odb.commit; pure (committed (success_result true)))
        on_failure

  unfoldable pub read : IdType → M (World odb.Db) (OperationResult T)
  read id =
      try_catch
        (transaction odb do
          entity ← on_db (odb.load id)
          on_db odb.commit
          pure (committed (success_result entity)))
        on_failure

  unfoldable pub update : T → M (World odb.Db) (OperationResult Bool)
  update entity =
      try_catch
        (transaction odb
          do on_db (odb.update entity); on_db odb.commit; pure (committed (success_result true)))
        on_failure

  unfoldable pub delete : IdType → M (World odb.Db) (OperationResult Bool)
  delete id =
      try_catch
        (transaction odb
          do on_db (odb.erase id); on_db odb.commit; pure (committed (success_result true)))
        on_failure

  unfoldable pub read_all : M (World odb.Db) (OperationResult (List T))
  read_all =
      try_catch
        (transaction odb do
          result ← on_db odb.query_all
          on_db odb.commit
          pure (committed (success_result (push_all [] result))))
        on_failure
