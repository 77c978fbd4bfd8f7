-- ===== src/External/Pgsql.antt =====
-- ODB's runtime for PostgreSQL, and the server behind it: what the generated code of app/Entities/odb
-- calls.
pub mod Laws
use ccfolio.Common.{ℕ, List, [], ◌∷◌, Bool, Option}
use ccfolio.Common.Text.{Str}
use ccfolio.Common.Effect.{Exception, Outcome}
use ccfolio.Entities.User.{User}

-- `odb::details::buffer`: where its storage is, how large it is, and the bytes in it.
pub record Buffer : Type 0 where
  pub address : ℕ
  pub capacity : ℕ
  pub bytes : Str

-- A value on its way to the server or back: an integer or a text, and whether it is NULL.
pub data Cell : Type 0 where
  int_cell : ℕ → Bool → Cell
  text_cell : Str → Bool → Cell

-- What a text of a row leaves in a buffer.
pub record Fetched : Type 0 where
  pub buffer : Buffer
  pub size : ℕ
  pub is_null : Bool
  pub truncated : Bool

-- A number that stands for a key is the one that the image's integer encodes.
pub record Runtime : Type 0 where
  -- `value_traits<std::string, id_string>`
  pub set_image : Buffer → Str → Buffer × ℕ × Bool
  pub set_value : Buffer → ℕ → Bool → Str
  -- `value_traits<int, id_integer>`
  pub set_id_image : ℕ → ℕ × Bool
  pub set_id_value : ℕ → Bool → ℕ
  -- `buffer.capacity(n)`
  pub set_capacity : Buffer → ℕ → Buffer
  -- the library's copy of a column into a bound buffer of a capacity, and into a bound integer
  pub fetch_text : ℕ → Str → Buffer → Fetched
  pub fetch_id : ℕ → ℕ × Bool
  -- `odb::object_not_persistent` and `odb::object_already_persistent`
  pub object_not_persistent : Exception
  pub object_already_persistent : Exception

-- A prepared statement: its name, its text and the types of its parameters.
pub data Oid : Type 0 where
  text_oid int4_oid : Oid

pub record Statement : Type 0 where
  pub name : Str
  pub text : Str
  pub types : List Oid

-- `returned` is the key of `RETURNING "id"`, `rows` what a query selects, `affected` the number of rows
-- that a statement has changed.
pub record Result : Type 0 where
  pub returned : Option ℕ
  pub rows : List User
  pub affected : ℕ

-- `S` is the state of the server as one connection sees it.
pub record Server (S : Type 0) : Type 0 where
  pub begin : S → Outcome (Unit {0}) × S
  pub commit : S → Outcome (Unit {0}) × S
  pub rollback : S → S
  pub execute : Statement → List Cell → S → Outcome Result × S
