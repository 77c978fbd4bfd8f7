-- ===== src/Tests/Race.antt =====
-- Two registrations at a time, on a table with one user.
use ccfolio.Common.{refl, [], ◌∷◌, true, false}
use ccfolio.Common.Text.{text}
use ccfolio.External.World.{World}
use ccfolio.Entities.User.{User}
use ccfolio.Repositories.UserRepository.Distinct.{Distinct}
use ccfolio.Repositories.UserRepository.Race.{looking, Calls, turn, step, run-duplicates}
use ccfolio.Repositories.UserRepository.Race
use ccfolio.Tests.Database.{Table, odb, odb_laws}
use ccfolio.Tests.Scenario.{run, table, at_time}

abbrev ann : User
ann = record { id = 3; username = text "ann"; password_hash = []; salt = [] }

abbrev bob : User
bob = record { id = 0; username = text "bob"; password_hash = []; salt = [] }

abbrev full : World Table
full = at_time (table (ann ∷ []) false) 0

run-duplicates_example : ¬ Distinct (
    odb_laws.rows
      (Race.run odb
        (true ∷ false ∷ true ∷ false ∷ [])
        (record { first = looking bob; second = looking bob; world = full })).world.db)
unfolding run Race.run turn step
run-duplicates_example = run-duplicates odb odb_laws bob bob full refl refl refl
