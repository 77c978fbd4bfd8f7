-- ===== src/Persistence/Traits/Prepared.antt =====
-- app/Entities/odb/User-odb.cxx: what the bindings read once an operation has prepared them.
use ccfolio.Common.{
  ℕ, suc, ◌≡◌, refl, ap, ap₂, ◌∙◌, inl, inr, List, [], ◌∷◌, ◌++◌, Bool, true, false, Option, some,
}
use ccfolio.External.Pgsql.{Runtime, Cell, int_cell}
use ccfolio.External.Pgsql.Laws.{RuntimeLaws}
use ccfolio.Entities.User.{User}
use ccfolio.Persistence.Image.{
  Image, StatementKind, statement_insert, bind, bind_id, read_cells, init_image, init_id, IdImage,
  Bind,
}
use ccfolio.Persistence.Image.Copies.{
  cells_of, image_cells, read_cells-insert, bind-update, init_image-cells, bind-init_image,
  init_id-cell,
}
use ccfolio.Persistence.Statements.{
  Statements, rebind_insert, rebind_id, rebind_update, store_image, store_id, count_growth,
  insert_cells, id_cells, read_id_cells, update_cells, append_cells,
}
use ccfolio.Persistence.Statements.Fresh.{
  IsFresh, Moved, IsFresh-Moved, rebind_insert-IsFresh, rebind_insert-binds, rebind_id-IsFresh,
  rebind_id-binds, rebind_update_lem,
}

module _ {rt : Runtime} (laws : RuntimeLaws rt) where
  count_growth-cells : (r : Bool × Image) → image_cells (count_growth r) ≡ image_cells r.1
  unfolding count_growth
  count_growth-cells (true, i) = refl
  count_growth-cells (false, i) = refl

  count_growth-Moved :
      (i : Image) (r : Bool × Image)
      → r.1.version ≡ i.version
      → (r.0 ≡ false → (kind : StatementKind) → bind r.1 kind ≡ bind i kind)
      → Moved i (count_growth r)
  unfolding count_growth
  count_growth-Moved i (true, i') e same = inr (ap suc e)
  count_growth-Moved i (false, i') e same = inl (e, same refl)

  store_image-IsFresh : (o : User) (sts : Statements) → IsFresh sts → IsFresh (store_image rt o sts)
  unfolding store_image init_image
  store_image-IsFresh o sts fresh =
      IsFresh-Moved sts _
        (count_growth-Moved sts.image (init_image rt sts.image o) refl
          (bind-init_image laws sts.image o))
        fresh

  store_image-cells :
      (o : User) (sts : Statements) → image_cells (store_image rt o sts).image ≡ cells_of o
  unfolding store_image
  store_image-cells o sts = count_growth-cells _ ∙ init_image-cells laws sts.image o

  store_id-IsFresh : (id : ℕ) (sts : Statements) → IsFresh sts → IsFresh (store_id rt id sts)
  unfolding store_id init_id
  store_id-IsFresh id sts fresh = record {
    inserts = fresh.inserts;
    updates = fresh.updates;
    selects = fresh.selects;
    keys = fresh.keys;
    uncounted = fresh.uncounted;
  }

  id_cells-bound :
      (id : ℕ) (i : IdImage) (bs : List Bind)
      → bs ≡ bind_id
      → read_id_cells (init_id rt i id) bs ≡ some (int_cell id false ∷ [])
  unfolding read_id_cells bind_id
  id_cells-bound id i bs e = rw (e, init_id-cell laws i id)

  image_cells-bound :
      (o : User) (i : Image) (bs : List Bind)
      → image_cells i ≡ cells_of o
      → bs ≡ bind i statement_insert
      → read_cells i bs ≡ some (cells_of o)
  image_cells-bound o i bs cells e =
      ap (read_cells i) e ∙ read_cells-insert i ∙ ap (λ l. some l) cells

  -- Statements ready for execution: the parameters are these, and no pointer is stale.
  pub record Prepared (before : Statements) (sts : Statements) (sent : Option (List Cell))
      (cells : List Cell) : Type 0 where
    pub fresh : IsFresh sts
    pub sends : sent ≡ some cells
    pub locked : sts.locked ≡ before.locked
    pub delayed : sts.delayed ≡ before.delayed

  module _ (sts : Statements) (fresh : IsFresh sts) where
    abbrev pub for_insert : User → Statements
    for_insert o = rebind_id (rebind_insert (store_image rt o sts))

    pub for_insert-Prepared :
        (o : User) → Prepared sts (for_insert o) (insert_cells (for_insert o)) (cells_of o)
    unfolding rebind_id rebind_insert store_image insert_cells
    for_insert-Prepared o =
        let stored = store_image-IsFresh o sts fresh in
        record {
          fresh = rebind_id-IsFresh (rebind_insert-IsFresh stored);
          sends = image_cells-bound o _ _ (store_image-cells o sts) (rebind_insert-binds stored);
          locked = refl;
          delayed = refl;
        }

    pub for_insert-keys : (o : User) → (for_insert o).id_binding.binds ≡ bind_id
    for_insert-keys o = rebind_id-binds (rebind_insert-IsFresh (store_image-IsFresh o sts fresh))

    abbrev pub for_update : User → Statements
    for_update o = rebind_update (store_image rt o (store_id rt o.id sts))

    pub for_update-Prepared :
        (o : User)
        → Prepared sts
            (for_update o)
            (update_cells (for_update o))
            (cells_of o ++ int_cell o.id false ∷ [])
    unfolding store_id store_image update_cells
    for_update-Prepared o =
        let keyed = store_id rt o.id sts in
        let stored = store_image-IsFresh o keyed (store_id-IsFresh o.id sts fresh) in
        let done = rebind_update_lem (store_image rt o keyed) stored in
        record {
          fresh = done.0;
          sends =
              ap₂ append_cells
                (ap (λ i. read_cells i (for_update o).update_binding.binds) done.1
                  ∙ image_cells-bound o _ _ (store_image-cells o keyed) (done.3 ∙ bind-update _))
                (ap (λ i. read_id_cells i (for_update o).id_binding.binds) done.2
                  ∙ id_cells-bound o.id sts.id_image _ done.4);
          locked = done.5;
          delayed = done.6;
        }

    abbrev pub for_key : ℕ → Statements
    for_key id = rebind_id (store_id rt id sts)

    pub for_key-Prepared :
        (id : ℕ) → Prepared sts (for_key id) (id_cells (for_key id)) (int_cell id false ∷ [])
    unfolding rebind_id store_id id_cells
    for_key-Prepared id =
        let keyed = store_id-IsFresh id sts fresh in
        record {
          fresh = rebind_id-IsFresh keyed;
          sends = id_cells-bound id sts.id_image _ (rebind_id-binds keyed);
          locked = refl;
          delayed = refl;
        }
