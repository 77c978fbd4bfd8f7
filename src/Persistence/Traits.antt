-- ===== src/Persistence/Traits.antt =====
-- app/Entities/odb/User-odb.cxx and User-odb.ixx: the operations of `object_traits_impl<User>`.
pub mod Runs
pub mod Prepared
pub mod Sent
pub mod Found
pub mod Queried
use ccfolio.Common.{
  ℕ, List, [], ◌∷◌, Bool, true, false, ◌==◌, if◌then◌else◌, Option, none, some, ◌++◌,
}
use ccfolio.Common.Text.{text}
use ccfolio.Common.Effect.{Exception, logic_error, M, pure, raise, ◌>>=◌, ◌>>◌, Outcome, ok, throw}
use ccfolio.External.Pgsql.{Runtime, Server, Statement, Result, Cell}
use ccfolio.Entities.OperationResult.{Default}
use ccfolio.Entities.User.{User, user_default}
use ccfolio.Persistence.Image.{IdImage, Bind, integer, id_of_id_image, init_object}
use ccfolio.Persistence.Texts.{
  persist_statement, find_statement, update_statement, erase_statement, QueryBase, query_of,
  erase_query_of,
}
use ccfolio.Persistence.Statements.{
  Connection, Statements, rebind_insert, rebind_select, rebind_id, rebind_update, store_image,
  store_id, insert_cells, id_cells, update_cells,
}
use ccfolio.Persistence.Fetch.{fetch_first}

-- Stands for what is undefined in C++: a statement that reads or writes a freed buffer.
abbrev pub dangling : Exception
dangling = logic_error (text "dangling pointer")

module _ {S : Type 0} where
  abbrev pub modify : (Statements → Statements) → M (Connection S) (Unit {0})
  modify f c = (ok tt, record c { statements = f c.statements })

  abbrev pub put : Option Statements → M (Connection S) (Unit {0})
  put none c = (throw dangling, c)
  put (some sts) c = (ok tt, record c { statements = sts })

  abbrev pub answered : Connection S → Outcome Result × S → Outcome Result × Connection S
  answered c (o, s) = (o, record c { server = s })

-- `object_traits<User>::id(o)`
unfoldable pub id_of : User → ℕ
id_of o = o.id

module _ {S : Type 0} (rt : Runtime) (sv : Server S) where
  abbrev pub execute : Statement → Option (List Cell) → M (Connection S) Result
  execute st none c = (throw dangling, c)
  execute st (some cells) c = answered c (sv.execute st cells c.server)

  -- `st.execute()`, which reads the parameters through the bindings.
  abbrev pub send : Statement → (Statements → Option (List Cell)) → M (Connection S) Result
  send st cells c = execute st (cells c.statements) c

  -- The key that the server returns is written through the binding of the key.
  unfoldable pub write_key : List Bind → ℕ → Statements → Option Statements
  write_key (integer ∷ []) key sts =
      let id = rt.fetch_id key in
      some (record sts { id_image = record sts.id_image { id_value = id.0; id_null = id.1 } })
  write_key _ key sts = none

  -- The result of `insert_statement::execute`.
  unfoldable pub inserted : Option ℕ → M (Connection S) Bool
  unfolding write_key
  inserted none = pure false
  inserted (some key) = do
    c ← λ c. (ok c, c)
    put (write_key c.statements.id_binding.binds key c.statements)
    pure true

  -- `id(sts.id_image())`
  unfoldable pub key_of : Connection S → ℕ
  unfolding id_of_id_image
  key_of c = id_of_id_image rt c.statements.id_image

  -- The callbacks are empty, and there is no session whose cache of objects would be filled.
  unfoldable pub persist : User → M (Connection S) User
  unfolding inserted key_of
  persist obj = do
    modify λ sts. rebind_id (rebind_insert (store_image rt obj sts))
    result ← send persist_statement insert_cells
    stored ← inserted result.returned
    if stored
        then (λ c. (ok (record obj { id = key_of c }), c))
        else raise rt.object_already_persistent

  unfoldable pub update : User → M (Connection S) (Unit {0})
  update obj = do
    modify λ sts. rebind_update (store_image rt obj (store_id rt (id_of obj) sts))
    result ← send update_statement update_cells
    if result.affected == 0 then raise rt.object_not_persistent else pure tt

  unfoldable pub erase : ℕ → M (Connection S) (Unit {0})
  erase id = do
    modify λ sts. rebind_id (store_id rt id sts)
    result ← send erase_statement id_cells
    if result.affected == 1 then pure tt else raise rt.object_not_persistent

  -- `erase(database &, const object_type &)`
  unfoldable pub erase_object : User → M (Connection S) (Unit {0})
  unfolding erase id_of
  erase_object obj = erase (id_of obj)

  -- `st.fetch()` and what follows it, for the rows of the result.
  unfoldable pub fetch_result : List User → M (Connection S) Bool
  fetch_result [] = pure false
  fetch_result (row ∷ _) = (λ c. put (fetch_first rt row c.statements) c) >>= λ _. pure true

  unfoldable pub find_ : ℕ → M (Connection S) Bool
  unfolding fetch_result
  find_ id = do
    modify λ sts. rebind_select (rebind_id (store_id rt id sts))
    result ← send find_statement id_cells
    fetch_result result.rows

  unfoldable pub query : QueryBase → M (Connection S) Result
  query q = do modify rebind_select; execute (query_of q) (some q.parameters)

  unfoldable pub erase_query : QueryBase → M (Connection S) ℕ
  erase_query q = do result ← execute (erase_query_of q) (some q.parameters); pure result.affected

  abbrev pub lock : Bool → Connection S → Connection S
  lock b c = record c { statements = record c.statements { locked = b } }

  -- The scope of an `auto_lock` that has the lock; every way out releases it.
  abbrev pub release : {A : Type 0} → Outcome A × Connection S → Outcome A × Connection S
  release (o, c) = (o, lock false c)

  abbrev pub with_lock : {A : Type 0} → M (Connection S) A → M (Connection S) A
  with_lock body c = release (body (lock true c))

  -- `sts.load_delayed(0)` is the library's.
  module _ (load_delayed : M (Connection S) (Unit {0})) where
    -- What `find` and `reload` do with the image. `load_` is empty.
    unfoldable pub load_object : M (Connection S) User
    unfolding init_object
    load_object = do obj ← λ c. (ok (init_object rt c.statements.image), c); load_delayed; pure obj

    unfoldable pub find_locked : ℕ → M (Connection S) (Option User)
    unfolding load_object find_
    find_locked id = do
      found ← find_ id
      if found then (load_object >>= λ obj. pure (some obj)) else pure none

    abbrev pub delay_load : ℕ → Statements → Statements
    delay_load id sts = record sts { delayed = sts.delayed ++ id ∷ [] }

    -- `find(database &, const id_type &)`: in a load that is under way the object is loaded later.
    unfoldable pub find : ℕ → M (Connection S) (Option User)
    unfolding find_locked
    find id c =
        if c.statements.locked
        then (modify (delay_load id) >>= λ _. pure (some user_default.default)) c
        else with_lock (find_locked id) c

    -- `find(database &, const id_type &, object_type &)`, which starts with the lock free: whether
    -- the object was found, and the object.
    unfoldable pub find_into : ℕ → User → M (Connection S) (Bool × User)
    unfolding load_object find_
    find_into id obj = with_lock do
      found ← find_ id
      if found then (load_object >>= λ loaded. pure (true, loaded)) else pure (false, obj)

    unfoldable pub reload : User → M (Connection S) (Bool × User)
    unfolding find_into id_of
    reload obj = find_into (id_of obj) obj
