-- ===== src/Repositories/OdbRepository/Atomic.antt =====
-- app/Repositories/OdbRepository.h: what each operation returns and stores.
use ccfolio.Common.{◌≡◌, ap, ◌∙◌, ◌⊎◌, inl, inr, true, List, [], ◌∷◌, ◌++◌, subst, map, not}
use ccfolio.External.World.{World}
use ccfolio.External.Odb.{Odb}
use ccfolio.External.Odb.Laws.{OdbLaws, Schema, select, replace}
use ccfolio.Entities.OperationResult.{Default, bool_default, list_default}
use ccfolio.Repositories.OdbRepository.{push_all, create, read, update, delete, read_all}
use mathlib.Core.List.{Perm, Mem}
use ccfolio.Repositories.OdbRepository.Perform.{push_all-append, perform-cases, Unchanged, Done}

module _ {T IdType Q : Type 0} (odb : Odb T IdType Q) {schema : Schema T IdType Q}
    (laws : OdbLaws odb schema) where
  open laws use {rows}

  module _ ⦃d : Default T⦄ where
    -- `Create` always returns. It appends the entity under a key of the database's, or it fails and
    -- stores nothing.
    pub create-Atomic :
        (entity : T) (w : World odb.Db)
        → (Done odb laws true w (create odb entity w)
            × ((id : IdType) × (rows (create odb entity w).1.db
                  ≡ rows w.db ++ schema.with_id id entity ∷ [])))
          ⊎ Unchanged odb laws w (create odb entity w)
    unfolding create
    create-Atomic entity w =
        elim (perform-cases odb laws (odb.persist entity) (λ _. true) (laws.persist_rows entity)
          w) [
            | inl (u, f, e, returned, stored, log) ↦
                let (id, seen) = laws.persist_view entity _ f in
                inl (
                  (returned, log),
                  (
                    id,
                    stored
                        ∙ seen
                        ∙ ap (λ l. l ++ schema.with_id id entity ∷ []) (laws.begin_view w.db e),
                  ),
                )
            | inr (x, returned, stored, log) ↦ inr (returned, stored, (x, log))
          ]

    -- `Read` always returns, and stores nothing. What it returns is a stored entity with the key,
    -- or it fails.
    pub read-Atomic :
        (id : IdType) (w : World odb.Db)
        → ((entity : T) × Done odb laws entity w (read odb id w)
            × Mem entity (select (schema.has_id id) (rows w.db))
            × (rows (read odb id w).1.db ≡ rows w.db))
          ⊎ Unchanged odb laws w (read odb id w)
    unfolding read
    read-Atomic id w = elim (perform-cases odb laws (odb.load id) (λ t. t) (laws.load_rows id) w) [
      | inl (t, f, e, returned, stored, log) ↦
          let seen = laws.begin_view w.db e in
          inl (
            t,
            (returned, log),
            subst (λ l. Mem t (select (schema.has_id id) l)) seen (laws.load_result id _ t f),
            stored ∙ laws.load_view id _ ∙ seen,
          )
      | inr (x, returned, stored, log) ↦ inr (returned, stored, (x, log))
    ]

    -- `Update` always returns. It puts the entity in the place of the rows with its key, up to the
    -- order of the rows, or it fails and stores nothing.
    pub update-Atomic :
        (entity : T) (w : World odb.Db)
        → (Done odb laws true w (update odb entity w)
            × Perm (rows (update odb entity w).1.db) (map (replace schema entity) (rows w.db)))
          ⊎ Unchanged odb laws w (update odb entity w)
    unfolding update
    update-Atomic entity w =
        elim (perform-cases odb laws (odb.update entity) (λ _. true) (laws.update_rows entity) w) [
          | inl (u, f, e, returned, stored, log) ↦
              inl (
                (returned, log),
                rw (stored, ← laws.begin_view w.db e) (laws.update_view entity _ f),
              )
          | inr (x, returned, stored, log) ↦ inr (returned, stored, (x, log))
        ]

    -- `Delete` always returns. It removes the rows with the key, up to the order of the others, or
    -- it fails and stores nothing.
    pub delete-Atomic :
        (id : IdType) (w : World odb.Db)
        → (Done odb laws true w (delete odb id w)
            × Perm
                (rows (delete odb id w).1.db)
                (select (λ t. not (schema.has_id id t)) (rows w.db)))
          ⊎ Unchanged odb laws w (delete odb id w)
    unfolding delete
    delete-Atomic id w =
        elim (perform-cases odb laws (odb.erase id) (λ _. true) (laws.erase_rows id) w) [
          | inl (u, f, e, returned, stored, log) ↦
              inl ((returned, log), rw (stored, ← laws.begin_view w.db e) (laws.erase_view id _ f))
          | inr (x, returned, stored, log) ↦ inr (returned, stored, (x, log))
        ]

    -- `ReadAll` always returns, and stores nothing. What it returns is every stored entity, once,
    -- in some order, or it fails.
    pub read_all-Atomic :
        (w : World odb.Db)
        → ((entities : List T) × Done odb laws entities w (read_all odb w)
            × Perm entities (rows w.db)
            × (rows (read_all odb w).1.db ≡ rows w.db))
          ⊎ Unchanged odb laws w (read_all odb w)
    unfolding read_all
    read_all-Atomic w =
        elim (perform-cases odb laws odb.query_all (push_all []) laws.query_all_rows w) [
          | inl (r, f, e, returned, stored, log) ↦
              let seen = laws.begin_view w.db e in
              inl (
                push_all [] r,
                (returned, log),
                rw (push_all-append [] r, ← seen) (laws.query_all_result _ r f),
                stored ∙ laws.query_all_view _ ∙ seen,
              )
          | inr (x, returned, stored, log) ↦ inr (returned, stored, (x, log))
        ]
