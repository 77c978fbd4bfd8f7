-- ===== src/App/Main/Start.antt =====
-- app/main.cc: what `main` has built when it starts to serve.
use ccfolio.Common.{ℕ, ◌≡◌, refl, sym}
use ccfolio.Common.Text.{Str}
use ccfolio.Common.Effect.{Outcome, ok, throw}
use ccfolio.External.World.{World}
use ccfolio.External.Odb.{Odb}
use ccfolio.Entities.User.{User}
use ccfolio.Service.{Libraries}
use ccfolio.App.Main.{
  Config, Platform, Program, atoi, to_unsigned_short, launch, with_address, with_database,
  start_program,
}

ok_inj : {A : Type 0} {a b : A} → ok a ≡ ok b → a ≡ b
ok_inj e = cc

module _ (lib : Libraries) (odb : Odb User ℕ Str) (platform : Platform odb.Db) where
  open platform use {Address, make_address}

  abbrev pub launched : Config → World odb.Db → Address → Program odb.Db
  launched config w address =
      launch lib odb platform config w address (to_unsigned_short (atoi config.server_port))

  address-launches :
      (config : Config) (w : World odb.Db) (p : Program odb.Db) (o : Outcome Address)
      → with_address lib odb platform config w o ≡ ok p
      → (address : Address) × (o ≡ ok address) × (p ≡ launched config w address)
  unfolding with_address
  address-launches config w p (ok address) e = (address, refl, sym (ok_inj e))
  address-launches config w p (throw x) e = cc

  database-launches :
      (config : Config) (w : World odb.Db) (p : Program odb.Db) (o : Outcome odb.Db)
      → with_database lib odb platform config w o ≡ ok p
      → (address : Address) × (make_address config.server_address ≡ ok address)
        × ((db : odb.Db) × (p ≡ launched config (record w { db = db }) address))
  unfolding with_database
  database-launches config w p (ok db) e =
      let (address, made, same) = address-launches config (record w { db = db }) p _ e in
      (address, made, (db, same))
  database-launches config w p (throw x) e = cc

  -- A program that has started was launched with a database and an address that were made without an
  -- exception.
  pub start_program-launches :
      (config : Config) (w : World odb.Db) (p : Program odb.Db)
      → start_program lib odb platform config w ≡ ok p
      → (address : Address) × (make_address config.server_address ≡ ok address)
        × ((db : odb.Db) × (p ≡ launched config (record w { db = db }) address))
  unfolding start_program
  start_program-launches config w p e = database-launches config w p _ e
