-- ===== src/Tests/Storage.antt =====
-- The repositories, on a table with one user.
use ccfolio.Common.{◌≢◌, refl, ◌⊎◌, [], ◌∷◌, Bool, true, false}
use ccfolio.Common.Text.{text}
use ccfolio.External.World.{World}
use ccfolio.Entities.OperationResult.{bool_default, list_default, option_default}
use ccfolio.Entities.User.{User, user_default}
use ccfolio.Repositories.OdbRepository.Perform.{Done, Unchanged}
use ccfolio.Repositories.OdbRepository.Operation.{deleting, perform, Steps, perform-Steps}
use ccfolio.Repositories.UserRepository
use ccfolio.Repositories.UserRepository.{
  something_happened, already_exist_message, not_created_message,
}
use ccfolio.Repositories.UserRepository.Lookup.{user_schema, named}
use ccfolio.Repositories.UserRepository.Distinct.{Distinct, create_user_duplicates}
use ccfolio.Tests.Database.{Table, odb, odb_laws}
use ccfolio.Tests.Scenario.{run, table, at_time}

abbrev ann : User
ann = record { id = 3; username = text "ann"; password_hash = []; salt = [] }

abbrev bob : User
bob = record { id = 0; username = text "bob"; password_hash = []; salt = [] }

abbrev full : World Table
full = at_time (table (ann ∷ []) false) 0

-- The same table behind a server that does not answer queries.
abbrev down : World Table
down = at_time (table (ann ∷ []) true) 0

perform-Steps_example :
    ((value : Bool) × Done odb odb_laws value full (perform odb (deleting 3) full)
      × Steps user_schema
          (deleting 3)
          (odb_laws.rows full.db)
          value
          (odb_laws.rows (perform odb (deleting 3) full).1.db))
    ⊎ Unchanged odb odb_laws full (perform odb (deleting 3) full)
perform-Steps_example = perform-Steps odb odb_laws (deleting 3) full

taken : named ann.username (odb_laws.rows down.db) ≢ []
unfolding run odb_laws
taken e = cc

create_user_duplicates_example :
    ¬ Distinct (odb_laws.rows (UserRepository.create_user odb ann down).1.db)
unfolding run
create_user_duplicates_example = create_user_duplicates odb odb_laws ann down refl taken refl
