-- ===== src/Persistence/Image.antt =====
-- app/Entities/odb/User-odb.cxx and User-odb.hxx: the image of a row, the pointers to it that a
-- statement is bound to, and the copies between an object and its image.
pub mod Copies
use ccfolio.Common.{
  ℕ, zero, suc, List, [], ◌∷◌, Bool, true, false, not, ◌||◌, ◌==◌, if◌then◌else◌, Option, none,
  some, take,
}
use ccfolio.Common.Text.{Str}
use ccfolio.External.Pgsql.{Buffer, Runtime, Cell, int_cell, text_cell, Fetched}
use ccfolio.Entities.User.{User}

-- The three members of `image_type` that a text has: its buffer, its size, and whether it is NULL.
pub record Column : Type 0 where
  pub value : Buffer
  pub size : ℕ
  pub null : Bool

pub record IdImage : Type 0 where
  pub id_value : ℕ
  pub id_null : Bool
  pub version : ℕ

-- `version` counts the times that a buffer has grown; memory bounds it, so it does not wrap.
pub record Image : Type 0 where
  pub id_value : ℕ
  pub id_null : Bool
  pub username : Column
  pub password_hash : Column
  pub salt : Column
  pub version : ℕ

pub data StatementKind : Type 0 where
  statement_select statement_insert statement_update statement_delete : StatementKind

pub data Field : Type 0 where
  username_field password_hash_field salt_field : Field

unfoldable pub column : Field → Image → Column
column username_field i = i.username
column password_hash_field i = i.password_hash
column salt_field i = i.salt

-- An entry of the array `pgsql::bind`. A text has the address and the capacity that its buffer had when
-- it was bound, and pointers to its size and its null flag.
pub data Bind : Type 0 where
  integer : Bind
  text : Field → ℕ → ℕ → Bind

-- The block of `bind` for one text.
unfoldable pub bind_text : Field → Column → Bind
bind_text f c = text f c.value.address c.value.capacity

unfoldable pub has_id : StatementKind → Bool
has_id statement_insert = false
has_id statement_update = false
has_id _ = true

unfoldable pub bind : Image → StatementKind → List Bind
unfolding bind_text has_id
bind i sk =
    let texts =
      bind_text username_field i.username
      ∷ bind_text password_hash_field i.password_hash
      ∷ bind_text salt_field i.salt
      ∷ [] in
    if has_id sk then integer ∷ texts else texts

unfoldable pub bind_id : List Bind
bind_id = integer ∷ []

-- The flags of `grow`, one for each text; that of the key is always reset.
pub record Truncated : Type 0 where
  pub username : Bool
  pub password_hash : Bool
  pub salt : Bool

-- `cap != i.….capacity()`
unfoldable pub has_grown : Column → Column → Bool
has_grown before after = not (before.value.capacity == after.value.capacity)

module _ (rt : Runtime) where
  -- The block of `grow` for one text.
  unfoldable pub grow_column : Bool → Column → Column
  grow_column t c = if t then record c { value = rt.set_capacity c.value c.size } else c

  unfoldable pub grow : Image → Truncated → Bool × Image
  unfolding grow_column
  grow i t = (
    t.username || t.password_hash || t.salt,
    record i {
      username = grow_column t.username i.username;
      password_hash = grow_column t.password_hash i.password_hash;
      salt = grow_column t.salt i.salt;
    },
  )

  -- The block of `init` for one text.
  unfoldable pub set_column : Column → Str → Column
  set_column c v =
      let set = rt.set_image c.value v in record { value = set.0; size = set.1; null = set.2 }

  -- `init(image_type &, const object_type &, statement_kind)`
  unfoldable pub init_image : Image → User → Bool × Image
  unfolding set_column has_grown
  init_image i o =
      let username = set_column i.username o.username in
      let password_hash = set_column i.password_hash o.password_hash in
      let salt = set_column i.salt o.salt in
      (
        has_grown i.username username
            || has_grown i.password_hash password_hash
            || has_grown i.salt salt,
        record i { username = username; password_hash = password_hash; salt = salt },
      )

  -- `init(object_type &, const image_type &, database *)`
  unfoldable pub value_of : Column → Str
  value_of c = rt.set_value c.value c.size c.null

  unfoldable pub init_object : Image → User
  unfolding value_of
  init_object i = record {
    id = rt.set_id_value i.id_value i.id_null;
    username = value_of i.username;
    password_hash = value_of i.password_hash;
    salt = value_of i.salt;
  }

  -- `init(id_image_type &, const id_type &)`
  unfoldable pub init_id : IdImage → ℕ → IdImage
  init_id i id = let set = rt.set_id_image id in record i { id_value = set.0; id_null = set.1 }

  -- `id(const id_image_type &)` and `id(const image_type &)`
  unfoldable pub id_of_id_image : IdImage → ℕ
  id_of_id_image i = rt.set_id_value i.id_value i.id_null

  unfoldable pub id_of_image : Image → ℕ
  id_of_image i = rt.set_id_value i.id_value i.id_null

-- What the library reads through the bound pointers: `none` if one of them points to storage that has
-- been freed since.
unfoldable pub read_text : ℕ → Column → Option Cell
read_text address c =
    if c.value.address == address then some (text_cell (take c.size c.value.bytes) c.null) else none

unfoldable pub read_cell : Image → Bind → Option Cell
unfolding column read_text
read_cell i integer = some (int_cell i.id_value i.id_null)
read_cell i (text f address capacity) = read_text address (column f i)

abbrev pub cons_cell : Option Cell → Option (List Cell) → Option (List Cell)
cons_cell (some c) (some cs) = some (c ∷ cs)
cons_cell (some c) none = none
cons_cell none cs = none

unfoldable pub read_cells : Image → List Bind → Option (List Cell)
unfolding read_cell
read_cells i [] = some []
read_cells i (b ∷ bs) = cons_cell (read_cell i b) (read_cells i bs)
