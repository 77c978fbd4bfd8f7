-- ===== src/Repositories/UserRepository.antt =====
-- app/Repositories/UserRepository.h: the users' store over the generic repository.
pub mod Lookup
pub mod Registration
pub mod Distinct
pub mod Race
use ccfolio.Common.{ℕ, Bool, Option, none, some, List, [], ◌∷◌, ◌++◌, not, if◌then◌else◌}
use ccfolio.Common.Text.{Str, text}
use ccfolio.Common.Effect.{
  Exception, odb_error, connection_lost, M, pure, raise, ◌>>=◌, ◌>>◌, try_catch, Outcome, ok, throw,
}
use ccfolio.External.World.{World, on_db, log_error}
use ccfolio.External.Odb.{Odb, Exit, committed, abandoned, transaction}
use ccfolio.Entities.OperationResult.{
  OperationResult, success_result, failure_result, is_success, option_default,
}
use ccfolio.Entities.User.{User, user_default}
use ccfolio.Interfaces.{IUserRepository}
use ccfolio.Repositories.OdbRepository.{create}

abbrev pub something_happened : Str
something_happened = text "Something happened, please try again later"

unfoldable pub not_found_message : Str → Str
not_found_message username = text "Failed to find user with username: " ++ username

unfoldable pub already_exist_message : Str → Str
already_exist_message username = text "User with username: " ++ username ++ text " already exist."

unfoldable pub not_created_message : Str → Str
not_created_message username = text "Failed to create user with username: " ++ username

-- `catch (const odb::exception &e)`; any other exception goes on.
unfoldable pub on_odb_failure : {D : Type 0} → Exception → M (World D) (OperationResult User)
on_odb_failure (odb_error m) = do log_error (odb_error m); pure (failure_result something_happened)
on_odb_failure (connection_lost m) = do
  log_error (connection_lost m)
  pure (failure_result something_happened)
on_odb_failure e = raise e

-- `catch (const std::exception &e)` of the lookup
unfoldable pub on_lookup_failure :
    {D : Type 0} → Exception → M (World D) (OperationResult (Option User))
on_lookup_failure e = do log_error e; pure (failure_result something_happened)

-- `odb` is queried by a username (`Query::username == username`).
module _ (odb : Odb User ℕ Str) where
  -- The loop returns at the first row; with no row the transaction is left uncommitted.
  unfoldable pub first_row :
      Str → List User → M (World odb.Db) (Exit (OperationResult (Option User)))
  first_row username [] = pure (abandoned (failure_result (not_found_message username)))
  first_row username (user ∷ _) = do on_db odb.commit; pure (committed (success_result (some user)))

  unfoldable pub get_user_by_username : Str → M (World odb.Db) (OperationResult (Option User))
  unfolding first_row
  get_user_by_username username =
      try_catch (transaction odb do r ← on_db (odb.query username); first_row username r)
        on_lookup_failure

  unfoldable pub store : User → M (World odb.Db) (OperationResult User)
  store user = do
    user_created ← create odb user
    if not (is_success user_created)
        then pure (failure_result (not_created_message user.username))
        else pure (success_result user)

  unfoldable pub create_user : User → M (World odb.Db) (OperationResult User)
  unfolding store
  create_user user =
      try_catch
        (do
          user_exist ← get_user_by_username user.username
          if is_success user_exist
              then pure (failure_result (already_exist_message user.username))
              else store user)
        on_odb_failure

  abbrev pub user_repository : IUserRepository odb.Db
  user_repository = record {
    get_user_by_username = get_user_by_username;
    create_user = create_user;
  }
