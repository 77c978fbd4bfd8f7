-- ===== src/Persistence/Statements.antt =====
-- app/Entities/odb/User-odb.cxx: the statements of a connection, and how an operation brings their
-- bindings up to date before it executes one.
pub mod Fresh
use ccfolio.Common.{
  ℕ, zero, suc, ◌+◌, List, [], ◌∷◌, ◌++◌, Bool, not, ◌||◌, ◌==◌, if◌then◌else◌, Option, none, some,
}
use ccfolio.External.Pgsql.{Runtime, Cell, int_cell}
use ccfolio.Entities.User.{User}
use ccfolio.Persistence.Image.{
  Image, IdImage, Bind, integer, text, Truncated, StatementKind, statement_insert, statement_update,
  statement_select, bind, bind_id, init_image, init_id, cons_cell, read_cells,
}

-- `pgsql::binding`, with the version of the image that it was last bound to.
pub record Binding : Type 0 where
  pub binds : List Bind
  pub version : ℕ
  pub bound_to : ℕ

-- `pgsql::object_statements<User>`. The parameters of the update are the three of `update_binding`
-- and that of `id_binding`, which the library keeps in one array.
pub record Statements : Type 0 where
  pub image : Image
  pub insert_binding : Binding
  pub update_binding : Binding
  pub select_binding : Binding
  pub id_image : IdImage
  pub id_binding : Binding
  pub update_id_version : ℕ
  pub truncated : Truncated
  pub delayed : List ℕ
  pub locked : Bool

-- A connection: the server behind it and its cache of statements.
pub record Connection (S : Type 0) : Type 0 where
  pub server : S
  pub statements : Statements

-- `bind(b.bind, image); sts.image_version(image.version); b.version++;`
unfoldable pub bound : ℕ → List Bind → Binding → Binding
bound version binds b = record { binds = binds; version = suc b.version; bound_to = version }

-- `image.version != sts.image_version() || b.version == 0`
unfoldable pub is_stale : ℕ → Binding → Bool
is_stale version b = not (version == b.bound_to) || b.version == 0

unfoldable pub rebind : ℕ → List Bind → Binding → Binding
unfolding bound is_stale
rebind version binds b = if is_stale version b then bound version binds b else b

-- `if (…) im.version++;`
unfoldable pub count_growth : Bool × Image → Image
count_growth (grew, im) = if grew then record im { version = suc im.version } else im

unfoldable pub rebind_insert : Statements → Statements
rebind_insert sts = record sts {
  insert_binding = rebind sts.image.version (bind sts.image statement_insert) sts.insert_binding;
}

unfoldable pub rebind_select : Statements → Statements
rebind_select sts = record sts {
  select_binding = rebind sts.image.version (bind sts.image statement_select) sts.select_binding;
}

unfoldable pub rebind_id : Statements → Statements
rebind_id sts = record sts { id_binding = rebind sts.id_image.version bind_id sts.id_binding }

-- `if (!u) imb.version++;`
unfoldable pub touch : Bool → Binding → Binding
touch u b = if u then b else record b { version = suc b.version }

-- The second block of `update`, for the key; `u` tells that the first has bound the image.
unfoldable pub rebind_update_id : Bool → Statements → Statements
unfolding is_stale rebind_id touch
rebind_update_id u sts =
    if not (sts.id_image.version == sts.update_id_version) || sts.id_binding.version == 0
    then record (rebind_id sts) {
      update_id_version = sts.id_image.version;
      update_binding = touch u sts.update_binding;
    }
    else sts

unfoldable pub rebind_update : Statements → Statements
unfolding rebind_update_id is_stale
rebind_update sts = rebind_update_id (is_stale sts.image.version sts.update_binding) (record sts {
  update_binding = rebind sts.image.version (bind sts.image statement_update) sts.update_binding;
})

module _ (rt : Runtime) where
  -- `if (init(im, obj, …)) im.version++;`
  unfoldable pub store_image : User → Statements → Statements
  store_image o sts = record sts { image = count_growth (init_image rt sts.image o) }

  unfoldable pub store_id : ℕ → Statements → Statements
  store_id id sts = record sts { id_image = init_id rt sts.id_image id }

-- What a statement sends for the key: an integer, if it is bound.
unfoldable pub read_id_cells : IdImage → List Bind → Option (List Cell)
read_id_cells i [] = some []
read_id_cells i (integer ∷ bs) =
    cons_cell (some (int_cell i.id_value i.id_null)) (read_id_cells i bs)
read_id_cells i (text f address capacity ∷ bs) = none

abbrev pub append_cells : Option (List Cell) → Option (List Cell) → Option (List Cell)
append_cells (some a) (some b) = some (a ++ b)
append_cells (some a) none = none
append_cells none b = none

-- What `st.execute()` reads for each of the four statements.
unfoldable pub insert_cells : Statements → Option (List Cell)
insert_cells sts = read_cells sts.image sts.insert_binding.binds

unfoldable pub id_cells : Statements → Option (List Cell)
id_cells sts = read_id_cells sts.id_image sts.id_binding.binds

unfoldable pub update_cells : Statements → Option (List Cell)
unfolding id_cells
update_cells sts = append_cells (read_cells sts.image sts.update_binding.binds) (id_cells sts)
