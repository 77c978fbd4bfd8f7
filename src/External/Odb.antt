-- ===== src/External/Odb.antt =====
-- ODB over PostgreSQL: the calls on `odb::database` and `odb::transaction`.
pub mod Laws
use ccfolio.Common.{ℕ, ◌≡◌, List, [], ◌∷◌, ◌++◌, All}
use ccfolio.Common.Effect.{Exception, Outcome, ok, throw, M, ◌>>=◌, ◌>>◌}
use ccfolio.External.World.{World, on_db}

-- `T` is the persistent class, `IdType` its key, and `Q` the conditions that the program queries by.
pub record Odb (T IdType Q : Type 0) : Type 1 where
  pub Db : Type 0
  pub begin : Db → Outcome (Unit {0}) × Db
  pub commit : Db → Outcome (Unit {0}) × Db
  -- what the destructor of a transaction that was not committed does
  pub rollback : Db → Db
  pub persist : T → Db → Outcome (Unit {0}) × Db
  pub load : IdType → Db → Outcome T × Db
  pub update : T → Db → Outcome (Unit {0}) × Db
  pub erase : IdType → Db → Outcome (Unit {0}) × Db
  -- the whole result, as the loops over it read it
  pub query_all : Db → Outcome (List T) × Db
  pub query : Q → Db → Outcome (List T) × Db

-- How the scope of a transaction is left without an exception.
pub data Exit (A : Type 0) : Type 0 where
  committed : A → Exit A
  abandoned : A → Exit A

module _ {T IdType Q : Type 0} (odb : Odb T IdType Q) where
  abbrev pub roll_back : World odb.Db → World odb.Db
  roll_back w = record w { db = odb.rollback w.db }

  abbrev pub leave : {A : Type 0} → Outcome (Exit A) × World odb.Db → Outcome A × World odb.Db
  leave (ok (committed a), w) = (ok a, w)
  leave (ok (abandoned a), w) = (ok a, roll_back w)
  leave (throw e, w) = (throw e, roll_back w)

  abbrev pub scope : {A : Type 0} → M (World odb.Db) (Exit A) → M (World odb.Db) A
  scope body w = leave (body w)

  -- `odb::transaction t(db->begin()); body`
  abbrev pub transaction : {A : Type 0} → M (World odb.Db) (Exit A) → M (World odb.Db) A
  transaction body = do on_db odb.begin; scope body
