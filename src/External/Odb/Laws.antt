-- ===== src/External/Odb/Laws.antt =====
-- What the program relies on of ODB and PostgreSQL: a transaction sees and changes its own copy of
-- the rows, and only a commit that succeeds makes that copy the stored one.
use ccfolio.Common.{◌≡◌, List, [], ◌∷◌, ◌++◌, Bool, if◌then◌else◌, map, not}
use ccfolio.Common.Effect.{ok, Throws}
use ccfolio.External.Odb.{Odb}
use mathlib.Core.List.{Perm, Mem}

-- The rows that a test accepts, and the rest.
unfoldable pub select {ℓ} : {A : Type ℓ} → (A → Bool) → List A → List A
select p [] = []
select p (a ∷ l) = if p a then a ∷ select p l else select p l

-- The key of an object, and when a row satisfies a condition of a query.
pub record Schema (T IdType Q : Type 0) : Type 0 where
  pub id_of : T → IdType
  pub with_id : IdType → T → T
  pub has_id : IdType → T → Bool
  pub holds : Q → T → Bool

-- `UPDATE … WHERE id = …` on one row.
abbrev pub replace : {T IdType Q : Type 0} → Schema T IdType Q → T → T → T
replace s t row = if s.has_id (s.id_of t) row then t else row

pub record OdbLaws {T IdType Q : Type 0} (odb : Odb T IdType Q) (schema : Schema T IdType Q)
    : Type 0 where
  -- what is stored
  pub rows : odb.Db → List T
  -- what the open transaction sees
  pub view : odb.Db → List T
  pub begin_rows : (d : odb.Db) → rows (odb.begin d).1 ≡ rows d
  pub begin_view : (d : odb.Db) → (odb.begin d).0 ≡ ok tt → view (odb.begin d).1 ≡ rows d
  pub commit_ok : (d : odb.Db) → (odb.commit d).0 ≡ ok tt → rows (odb.commit d).1 ≡ view d
  pub commit_failed : (d : odb.Db) → Throws (odb.commit d).0 → rows (odb.commit d).1 ≡ rows d
  pub rollback_rows : (d : odb.Db) → rows (odb.rollback d) ≡ rows d
  pub persist_rows : (t : T) (d : odb.Db) → rows (odb.persist t d).1 ≡ rows d
  pub persist_view :
      (t : T) (d : odb.Db)
      → (odb.persist t d).0 ≡ ok tt
      → (id : IdType) × (view (odb.persist t d).1 ≡ view d ++ schema.with_id id t ∷ [])
  pub load_rows : (id : IdType) (d : odb.Db) → rows (odb.load id d).1 ≡ rows d
  pub load_view : (id : IdType) (d : odb.Db) → view (odb.load id d).1 ≡ view d
  pub load_result :
      (id : IdType) (d : odb.Db) (t : T)
      → (odb.load id d).0 ≡ ok t
      → Mem t (select (schema.has_id id) (view d))
  pub update_rows : (t : T) (d : odb.Db) → rows (odb.update t d).1 ≡ rows d
  pub update_view :
      (t : T) (d : odb.Db)
      → (odb.update t d).0 ≡ ok tt
      → Perm (view (odb.update t d).1) (map (replace schema t) (view d))
  pub erase_rows : (id : IdType) (d : odb.Db) → rows (odb.erase id d).1 ≡ rows d
  pub erase_view :
      (id : IdType) (d : odb.Db)
      → (odb.erase id d).0 ≡ ok tt
      → Perm (view (odb.erase id d).1) (select (λ t. not (schema.has_id id t)) (view d))
  pub query_all_rows : (d : odb.Db) → rows (odb.query_all d).1 ≡ rows d
  pub query_all_view : (d : odb.Db) → view (odb.query_all d).1 ≡ view d
  pub query_all_result : (d : odb.Db) (r : List T) → (odb.query_all d).0 ≡ ok r → Perm r (view d)
  pub query_rows : (q : Q) (d : odb.Db) → rows (odb.query q d).1 ≡ rows d
  pub query_view : (q : Q) (d : odb.Db) → view (odb.query q d).1 ≡ view d
  pub query_result :
      (q : Q) (d : odb.Db) (r : List T)
      → (odb.query q d).0 ≡ ok r
      → Perm r (select (schema.holds q) (view d))
