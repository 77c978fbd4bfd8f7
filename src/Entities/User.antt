-- ===== src/Entities/User.antt =====
-- app/Entities/User.h
use ccfolio.Common.{ℕ, []}
use ccfolio.Common.Text.{Str}
use ccfolio.Entities.OperationResult.{Default}

-- The key is assigned by the database; `int id{}` starts at 0.
pub record User : Type 0 where
  pub id : ℕ
  pub username : Str
  pub password_hash : Str
  pub salt : Str

-- `User(std::string username_, std::string passwordHash_, std::string salt_)`
unfoldable pub make_user : Str → Str → Str → User
make_user username password_hash salt = record {
  id = 0;
  username = username;
  password_hash = password_hash;
  salt = salt;
}

-- `User() = default`
instance abbrev pub user_default : Default User
user_default = record { default = record { id = 0; username = []; password_hash = []; salt = [] } }
