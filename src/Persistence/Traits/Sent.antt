-- ===== src/Persistence/Traits/Sent.antt =====
-- app/Entities/odb/User-odb.cxx: what `persist`, `update` and `erase` send to the server.
use ccfolio.Common.{
  ℕ, ◌≡◌, refl, ap, [], ◌∷◌, ◌++◌, Bool, true, false, ◌==◌, if◌then◌else◌, Option, none, some, List,
}
use ccfolio.Common.Effect.{M, pure, raise, ◌>>=◌, Outcome, ok}
use ccfolio.External.Pgsql.{Runtime, Server, Cell, int_cell}
use ccfolio.External.Pgsql.Laws.{RuntimeLaws}
use ccfolio.Entities.User.{User}
use ccfolio.Persistence.Image.{Bind, bind_id, id_of_id_image}
use ccfolio.Persistence.Image.Copies.{cells_of}
use ccfolio.Persistence.Texts.{persist_statement, update_statement, erase_statement}
use ccfolio.Persistence.Statements.{Connection, Statements, insert_cells, id_cells, update_cells}
use ccfolio.Persistence.Statements.Fresh.{IsFresh}
use ccfolio.Persistence.Traits.{write_key, inserted, key_of, persist, update, erase, id_of}
use ccfolio.Persistence.Traits.Runs.{Runs, Runs-send, given_key, persist_on, update_on, erase_on}
use ccfolio.Persistence.Traits.Prepared.{
  Prepared, for_insert, for_insert-Prepared, for_insert-keys, for_update, for_update-Prepared,
  for_key, for_key-Prepared,
}

module _ {S : Type 0} (rt : Runtime) (laws : RuntimeLaws rt) (sv : Server S) where
  stored : User → Bool → M (Connection S) User
  stored obj b =
      if b
      then (λ c. (ok (record obj { id = key_of rt sv c }), c))
      else raise rt.object_already_persistent

  keyed : ℕ → Statements → Statements
  keyed key sts =
      let id = rt.fetch_id key in
      record sts { id_image = record sts.id_image { id_value = id.0; id_null = id.1 } }

  -- The key is written through a binding that is up to date,
  write_key-bound :
      (bs : List Bind) (key : ℕ) (sts : Statements)
      → bs ≡ bind_id
      → write_key rt sv bs key sts ≡ some (keyed key sts)
  unfolding write_key bind_id keyed
  write_key-bound bs key sts e = rw e

  -- and read back.
  key_of-keyed :
      (key : ℕ) (c : Connection S)
      → key_of rt sv (record c { statements = keyed key c.statements }) ≡ key
  unfolding key_of id_of_id_image keyed
  key_of-keyed key c = rw (laws.fetched_id key) (laws.value_id key)

  keyed-IsFresh : (key : ℕ) (sts : Statements) → IsFresh sts → IsFresh (keyed key sts)
  unfolding keyed
  keyed-IsFresh key sts fresh = record {
    inserts = fresh.inserts;
    updates = fresh.updates;
    selects = fresh.selects;
    keys = fresh.keys;
    uncounted = fresh.uncounted;
  }

  stored-Runs :
      (o : User) (before : Statements) (key : Option ℕ) (c : Connection S)
      → c.statements.id_binding.binds ≡ bind_id
      → IsFresh c.statements
      → c.statements.locked ≡ before.locked
      → c.statements.delayed ≡ before.delayed
      → Runs before ((inserted rt sv key >>= stored o) c) (given_key rt sv o key c.server)
  unfolding stored inserted given_key keyed
  stored-Runs o before none c e fresh locked delayed = record {
    outcome = refl;
    server = refl;
    fresh = fresh;
    locked = locked;
    delayed = delayed;
  }
  stored-Runs o before (some key) c e fresh locked delayed =
      rw (write_key-bound c.statements.id_binding.binds key c.statements e) (record {
        outcome = ap (λ k. ok (record o { id = k })) (key_of-keyed key c);
        server = refl;
        fresh = keyed-IsFresh key c.statements fresh;
        locked = locked;
        delayed = delayed;
      })

  module _ (c : Connection S) (fresh : IsFresh c.statements) where
    -- Let the runtime behave as documented, and let no binding point to a freed buffer. Then
    -- `persist` is one execution of the INSERT with the three texts of the object as they are,
    -- whatever the image held before and whichever buffers had to grow; it gives the object the key
    -- that the server returns, and throws `object_already_persistent` if there is none. No statement
    -- reads a freed buffer, no binding points to one afterwards, and the lock and the delayed loads
    -- are as before.
    pub persist-Runs :
        (o : User) → Runs c.statements (persist rt sv o c) (persist_on rt sv o c.server)
    unfolding persist persist_on stored
    persist-Runs o =
        let ready = for_insert-Prepared laws c.statements fresh o in
        Runs-send rt sv persist_statement insert_cells (cells_of o)
          (λ result. inserted rt sv result.returned >>= stored o)
          (λ result. given_key rt sv o result.returned) c.statements
          (record c { statements = for_insert laws c.statements fresh o }) ready.sends ready.fresh
          ready.locked ready.delayed
          (λ result s.
            stored-Runs o c.statements result.returned _ (for_insert-keys laws c.statements fresh o)
              ready.fresh ready.locked ready.delayed)

    -- An operation that ends once its statement has been executed.
    ended :
        {sent : Option (List Cell)} {cells : List Cell} (o : Outcome (Unit {0})) (sts : Statements)
        (s : S)
        → Prepared laws c.statements sts sent cells
        → Runs c.statements (o, record c { server = s; statements = sts }) (o, s)
    ended o sts s ready = record {
      outcome = refl;
      server = refl;
      fresh = ready.fresh;
      locked = ready.locked;
      delayed = ready.delayed;
    }

    -- The end of `update` and `erase`, which look at the number of rows alone.
    checked-Runs :
        (b : Bool) (m m' : M (Connection S) (Unit {0})) (k k' : M S (Unit {0})) (sts : Statements)
        (s : S)
        → Runs c.statements (m (record c { server = s; statements = sts })) (k s)
        → Runs c.statements (m' (record c { server = s; statements = sts })) (k' s)
        → Runs c.statements
            ((if b then m else m') (record c { server = s; statements = sts }))
            ((if b then k else k') s)
    checked-Runs true m m' k k' sts s h h' = h
    checked-Runs false m m' k k' sts s h h' = h'

    -- Let the runtime behave as documented, and let no binding point to a freed buffer. Then
    -- `update` is one execution of the UPDATE with the three texts and the key of the object, and throws `object_not_persistent` if it changed no row. No statement reads a freed
    -- buffer, no binding points to one afterwards, and the lock and the delayed loads are as before.
    pub update-Runs : (o : User) → Runs c.statements (update rt sv o c) (update_on rt sv o c.server)
    unfolding update update_on id_of
    update-Runs o =
        let ready = for_update-Prepared laws c.statements fresh o in
        Runs-send rt sv update_statement update_cells (cells_of o ++ int_cell o.id false ∷ [])
          (λ result. if result.affected == 0 then raise rt.object_not_persistent else pure tt)
          (λ result. if result.affected == 0 then raise rt.object_not_persistent else pure tt)
          c.statements (record c { statements = for_update laws c.statements fresh o }) ready.sends
          ready.fresh ready.locked ready.delayed
          (λ result s.
            checked-Runs (result.affected == 0) _ _ _ _ _ s (ended _ _ s ready) (ended _ _ s ready))

    -- The same for `erase`, which is one execution of the DELETE with the key, and throws
    -- `object_not_persistent` if it did not remove one row.
    pub erase-Runs : (id : ℕ) → Runs c.statements (erase rt sv id c) (erase_on rt sv id c.server)
    unfolding erase erase_on
    erase-Runs id =
        let ready = for_key-Prepared laws c.statements fresh id in
        Runs-send rt sv erase_statement id_cells (int_cell id false ∷ [])
          (λ result. if result.affected == 1 then pure tt else raise rt.object_not_persistent)
          (λ result. if result.affected == 1 then pure tt else raise rt.object_not_persistent)
          c.statements (record c { statements = for_key laws c.statements fresh id }) ready.sends
          ready.fresh ready.locked ready.delayed
          (λ result s.
            checked-Runs (result.affected == 1) _ _ _ _ _ s (ended _ _ s ready) (ended _ _ s ready))
