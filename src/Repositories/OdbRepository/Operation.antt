-- ===== src/Repositories/OdbRepository/Operation.antt =====
-- app/Repositories/OdbRepository.h: the repository as a table whose steps succeed or change nothing.
use ccfolio.Common.{◌≡◌, refl, ◌⊎◌, inl, inr, true, Bool, List, [], ◌∷◌, ◌++◌, map, not}
use ccfolio.Common.Effect.{M}
use ccfolio.External.World.{World}
use ccfolio.External.Odb.{Odb}
use ccfolio.External.Odb.Laws.{OdbLaws, Schema, select, replace}
use ccfolio.Entities.OperationResult.{OperationResult, Default, bool_default, list_default}
use ccfolio.Repositories.OdbRepository.{create, read, update, delete, read_all}
use ccfolio.Repositories.OdbRepository.Perform.{Unchanged, Done}
use ccfolio.Repositories.OdbRepository.Atomic.{
  create-Atomic, read-Atomic, update-Atomic, delete-Atomic, read_all-Atomic,
}
use mathlib.Core.List.{Perm, Mem}

-- A call on the repository, and the type of what it returns.
pub data Operation (T IdType : Type 0) : Type 0 where
  creating : T → Operation T IdType
  reading : IdType → Operation T IdType
  updating : T → Operation T IdType
  deleting : IdType → Operation T IdType
  reading_all : Operation T IdType

abbrev pub Value : {T IdType : Type 0} → Operation T IdType → Type 0
Value (creating t) = Bool
Value {T} (reading id) = T
Value (updating t) = Bool
Value (deleting id) = Bool
Value {T} reading_all = List T

-- The steps of a table of rows: the value that an operation returns, and the rows afterwards.
abbrev pub Steps :
    {T IdType Q : Type 0} (schema : Schema T IdType Q) (op : Operation T IdType)
    → List T
    → Value op
    → List T
    → Type 0
Steps {IdType} schema (creating t) rows value rows' =
    (value ≡ true) × ((id : IdType) × (rows' ≡ rows ++ schema.with_id id t ∷ []))
Steps schema (reading id) rows value rows' =
    Mem value (select (schema.has_id id) rows) × (rows' ≡ rows)
Steps schema (updating t) rows value rows' =
    (value ≡ true) × Perm rows' (map (replace schema t) rows)
Steps schema (deleting id) rows value rows' =
    (value ≡ true) × Perm rows' (select (λ t. not (schema.has_id id t)) rows)
Steps schema reading_all rows value rows' = Perm value rows × (rows' ≡ rows)

module _ {T IdType Q : Type 0} ⦃d : Default T⦄ (odb : Odb T IdType Q) where
  -- What a failure carries in place of the value.
  abbrev pub value_default : (op : Operation T IdType) → Default (Value op)
  value_default (creating t) = bool_default
  value_default (reading id) = d
  value_default (updating t) = bool_default
  value_default (deleting id) = bool_default
  value_default reading_all = list_default

  abbrev pub perform : (op : Operation T IdType) → M (World odb.Db) (OperationResult (Value op))
  perform (creating t) = create odb t
  perform (reading id) = read odb id
  perform (updating t) = update odb t
  perform (deleting id) = delete odb id
  perform reading_all = read_all odb

  module _ {schema : Schema T IdType Q} (laws : OdbLaws odb schema) where
    open laws use {rows}

    -- Let the database keep its table as ODB and PostgreSQL document. Then every operation of the
    -- repository returns. Either it returns success with a value and takes a step of the table with
    -- that value, and logs nothing: `Create` appends the entity under a key of the database's, `Read`
    -- returns a row with the key, `Update` puts the entity in the place of the rows with its key and
    -- `Delete` removes the rows with the key, both up to the order of the rows, `ReadAll` returns
    -- every row once in some order, and the two reads store nothing. Or it returns the fixed
    -- failure, stores nothing, and logs the exception.
    pub perform-Steps :
        (op : Operation T IdType) (w : World odb.Db)
        → ((value : Value op) × Done odb laws value w (perform op w)
            × Steps schema op (rows w.db) value (rows (perform op w).1.db))
          ⊎ Unchanged odb laws ⦃d = value_default op⦄ w (perform op w)
    perform-Steps (creating t) w = elim (create-Atomic odb laws t w) [
      | inl (done, stored) ↦ inl (true, done, (refl, stored))
      | inr same ↦ inr same
    ]
    perform-Steps (reading id) w = elim (read-Atomic odb laws id w) [
      | inl (t, done, found, same) ↦ inl (t, done, (found, same))
      | inr same ↦ inr same
    ]
    perform-Steps (updating t) w = elim (update-Atomic odb laws t w) [
      | inl (done, stored) ↦ inl (true, done, (refl, stored))
      | inr same ↦ inr same
    ]
    perform-Steps (deleting id) w = elim (delete-Atomic odb laws id w) [
      | inl (done, stored) ↦ inl (true, done, (refl, stored))
      | inr same ↦ inr same
    ]
    perform-Steps reading_all w = elim (read_all-Atomic odb laws w) [
      | inl (l, done, all, same) ↦ inl (l, done, (all, same))
      | inr same ↦ inr same
    ]
