-- ===== src/Interfaces.antt =====
-- app/Interfaces/IUserRepository.h: what the service asks of the users' store. `D` is the state of
-- the database behind it.
use ccfolio.Common.{Option}
use ccfolio.Common.Text.{Str}
use ccfolio.Common.Effect.{M}
use ccfolio.External.World.{World}
use ccfolio.Entities.OperationResult.{OperationResult}
use ccfolio.Entities.User.{User}

pub record IUserRepository (D : Type 0) : Type 0 where
  pub get_user_by_username : Str → M (World D) (OperationResult (Option User))
  pub create_user : User → M (World D) (OperationResult User)
