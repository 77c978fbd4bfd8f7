-- ===== src/Persistence/Image/Copies.antt =====
-- app/Entities/odb/User-odb.cxx: an object that `init` has copied into the image is what the bound
-- pointers then read.
use ccfolio.Common.{ℕ, ◌≡◌, refl, List, [], ◌∷◌, true, false, ◌==◌, arith, some, take}
use ccfolio.Common.Text.{Str}
use ccfolio.External.Pgsql.{Runtime, Cell, text_cell, int_cell}
use ccfolio.External.Pgsql.Laws.{RuntimeLaws}
use ccfolio.Entities.User.{User}
use ccfolio.Persistence.Image.{
  Image, Column, IdImage, StatementKind, statement_insert, statement_update, Field, bind, bind_text,
  read_text, read_cells, set_column, has_grown, init_image, init_id,
}

pub ==_refl : (n : ℕ) → (n == n) ≡ true
==_refl n = ground arith

-- What a statement sends for a text, and for the three texts of an object.
abbrev pub cell_of : Column → Cell
cell_of c = text_cell (take c.size c.value.bytes) c.null

abbrev pub cells_of : User → List Cell
cells_of o =
    text_cell o.username false ∷ text_cell o.password_hash false ∷ text_cell o.salt false ∷ []

pub read_text_self : (c : Column) → read_text c.value.address c ≡ some (cell_of c)
unfolding read_text
read_text_self c = rw (==_refl c.value.address)

abbrev pub image_cells : Image → List Cell
image_cells i = cell_of i.username ∷ cell_of i.password_hash ∷ cell_of i.salt ∷ []

pub read_cells-insert : (i : Image) → read_cells i (bind i statement_insert) ≡ some (image_cells i)
unfolding read_cells bind
read_cells-insert i =
    rw (read_text_self i.username, read_text_self i.password_hash, read_text_self i.salt)

pub bind-update : (i : Image) → bind i statement_update ≡ bind i statement_insert
unfolding bind
bind-update i = refl

module _ {rt : Runtime} (laws : RuntimeLaws rt) where
  pub set_column-cell : (c : Column) (v : Str) → cell_of (set_column rt c v) ≡ text_cell v false
  unfolding set_column
  set_column-cell c v = rw (laws.image_text c.value v, laws.image_null c.value v)

  pub init_image-cells : (i : Image) (o : User) → image_cells (init_image rt i o).1 ≡ cells_of o
  unfolding init_image
  init_image-cells i o = rw (
    set_column-cell i.username o.username,
    set_column-cell i.password_hash o.password_hash,
    set_column-cell i.salt o.salt,
  )

  -- A column that has not grown is bound as before.
  bind_text-set_column :
      (f : Field) (c : Column) (v : Str)
      → has_grown c (set_column rt c v) ≡ false
      → bind_text f (set_column rt c v) ≡ bind_text f c
  unfolding has_grown set_column bind_text
  bind_text-set_column f c v e =
      let same : (rt.set_image c.value v).0.capacity ≡ c.value.capacity = ground arith in
      rw (same, laws.image_stays c.value v same)

  pub bind-init_image :
      (i : Image) (o : User)
      → (init_image rt i o).0 ≡ false
      → (kind : StatementKind) → bind (init_image rt i o).1 kind ≡ bind i kind
  unfolding init_image bind
  bind-init_image i o e kind = rw (
    bind_text-set_column Field.username_field i.username o.username (ground arith),
    bind_text-set_column Field.password_hash_field i.password_hash o.password_hash (ground arith),
    bind_text-set_column Field.salt_field i.salt o.salt (ground arith),
  )

  pub init_id-cell :
      (i : IdImage) (id : ℕ)
      → int_cell (init_id rt i id).id_value (init_id rt i id).id_null ≡ int_cell id false
  unfolding init_id
  init_id-cell i id = rw (laws.image_id id)
