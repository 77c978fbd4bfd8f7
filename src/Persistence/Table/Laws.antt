-- ===== src/Persistence/Table/Laws.antt =====
-- app/Entities/odb/User-odb.cxx: the generated code keeps the table that the repositories rely on.
use ccfolio.Common.{
  ℕ, ◌≡◌, refl, ap, sym, subst, ◌∙◌, List, [], ◌∷◌, ◌++◌, Bool, true, map, none, some,
}
use ccfolio.Common.Text.{Str, str_eq}
use ccfolio.Common.Effect.{ok}
use ccfolio.External.Pgsql.{Runtime, Server}
use ccfolio.External.Odb.{Odb}
use ccfolio.External.Odb.Laws.{OdbLaws, select, replace}
use ccfolio.Entities.User.{User}
use ccfolio.Repositories.UserRepository.Lookup.{user_schema, named}
use ccfolio.Persistence.Texts.{username_column, table_name}
use ccfolio.Persistence.Table.{ServerLaws, Conditions, rows_with, rows_without}
use ccfolio.Persistence.Table.OnServer
use ccfolio.Persistence.Table.Forwarded.{Served}
use mathlib.Core.List.{Mem, Perm}
use mathlib.Core.Path.{fun_ext}

select-all {ℓ} : {A : Type ℓ} (p : A → Bool) (l : List A) → ((a : A) → p a ≡ true) → select p l ≡ l
unfolding select
select-all p [] all = refl
select-all p (a ∷ l) all = rw (all a) (ap (λ r. a ∷ r) (select-all p l all))

module _ {S : Type 0} {rt : Runtime} {sv : Server S} {laws : ServerLaws sv}
    {conditions : Conditions laws} {odb : Odb User ℕ Str}
    (served : Served rt sv conditions odb) where
  open served use {server}

  abbrev rows : odb.Db → List User
  rows d = laws.rows (server d)

  abbrev view : odb.Db → List User
  view d = laws.view (server d)

  persist_view :
      (o : User) (d : odb.Db)
      → (odb.persist o d).0 ≡ ok tt
      → (id : ℕ) × (view (odb.persist o d).1 ≡ view d ++ record o { id = id } ∷ [])
  persist_view o d e =
      let stored =
        OnServer.persist_on-view rt sv laws o (server d) (sym (served.persist_ok o d) ∙ e) in
      (stored.0, ap laws.view (served.persist_state o d) ∙ stored.1)

  update_view :
      (o : User) (d : odb.Db)
      → (odb.update o d).0 ≡ ok tt
      → Perm (view (odb.update o d).1) (map (replace user_schema o) (view d))
  update_view o d e =
      subst (λ s. Perm (laws.view s) (map (replace user_schema o) (view d)))
        (sym (served.update_state o d))
        (OnServer.update_on-view rt sv laws o (server d) (sym (served.update_ok o d) ∙ e))

  erase_view :
      (id : ℕ) (d : odb.Db)
      → (odb.erase id d).0 ≡ ok tt
      → Perm (view (odb.erase id d).1) (rows_without id (view d))
  erase_view id d e =
      subst (λ s. Perm (laws.view s) (rows_without id (view d))) (sym (served.erase_state id d))
        (OnServer.erase_on-view rt sv laws id (server d) (sym (served.erase_ok id d) ∙ e))

  load_result :
      (id : ℕ) (d : odb.Db) (o : User) → (odb.load id d).0 ≡ ok o → Mem o (rows_with id (view d))
  load_result id d o e = OnServer.find_on-Mem rt sv laws id (server d) o (served.load_ok id d o e)

  -- The rows that the library's condition accepts are those of the username.
  equals_accepts :
      (v : Str)
      → laws.accepts (conditions.equals (username_column table_name) v) ≡ (λ o. str_eq o.username v)
  equals_accepts v = fun_ext (conditions.equals_accepts v)

  query_result :
      (v : Str) (d : odb.Db) (l : List User) → (odb.query v d).0 ≡ ok l → Perm l (named v (view d))
  query_result v d l e =
      let read = served.query_ok v d l e in
      subst (λ k. Perm k (named v (view d))) (sym read.2)
        (subst (λ p. Perm read.0.rows (select p (view d))) (equals_accepts v)
          (laws.query_result _ (server d) read.0 read.1))

  query_all_result : (d : odb.Db) (l : List User) → (odb.query_all d).0 ≡ ok l → Perm l (view d)
  query_all_result d l e =
      let read = served.query_all_ok d l e in
      subst (λ k. Perm k (view d)) (sym read.2)
        (subst (λ k. Perm read.0.rows k)
          (select-all _ (view d)
            (λ o. laws.all_accepted conditions.no_condition o conditions.no_condition_empty))
          (laws.query_result _ (server d) read.0 read.1))

  -- keeps
  pub served-keeps_table :
      (kept : OdbLaws odb user_schema) × ((d : odb.Db) → kept.rows d ≡ laws.rows (server d))
      × ((d : odb.Db) → kept.view d ≡ laws.view (server d))
  served-keeps_table = (
    record {
      rows = rows;
      view = view;
      begin_rows = λ d. ap laws.rows (served.begin_state d) ∙ laws.begin_rows (server d);
      begin_view = λ d e.
          ap laws.view (served.begin_state d)
          ∙ laws.begin_view (server d) (sym (served.begin_ok d) ∙ e);
      commit_ok = λ d e.
          ap laws.rows (served.commit_state d)
          ∙ laws.commit_ok (server d) (sym (served.commit_outcome d) ∙ e);
      commit_failed = λ d t.
          ap laws.rows (served.commit_state d)
          ∙ laws.commit_failed (server d) (t.0, sym (served.commit_outcome d) ∙ t.1);
      rollback_rows = λ d. ap laws.rows (served.rollback_state d) ∙ laws.rollback_rows (server d);
      persist_rows = λ o d.
          ap laws.rows
            (served.persist_state o d ∙ OnServer.persist_on-state rt sv laws o (server d))
          ∙ laws.insert_rows o (server d);
      persist_view = persist_view;
      load_rows = λ id d.
          ap laws.rows (
            served.load_state id d
            ∙ OnServer.find_on-state rt sv laws none (λ u. some u) id (server d))
          ∙ laws.find_rows id (server d);
      load_view = λ id d.
          ap laws.view (
            served.load_state id d
            ∙ OnServer.find_on-state rt sv laws none (λ u. some u) id (server d))
          ∙ laws.find_view id (server d);
      load_result = load_result;
      update_rows = λ o d.
          ap laws.rows (served.update_state o d ∙ OnServer.update_on-state rt sv laws o (server d))
          ∙ laws.update_rows o (server d);
      update_view = update_view;
      erase_rows = λ id d.
          ap laws.rows (served.erase_state id d ∙ OnServer.erase_on-state rt sv laws id (server d))
          ∙ laws.erase_rows id (server d);
      erase_view = erase_view;
      query_all_rows = λ d. ap laws.rows (served.query_all_state d) ∙ laws.query_rows _ (server d);
      query_all_view = λ d. ap laws.view (served.query_all_state d) ∙ laws.query_view _ (server d);
      query_all_result = query_all_result;
      query_rows = λ v d. ap laws.rows (served.query_state v d) ∙ laws.query_rows _ (server d);
      query_view = λ v d. ap laws.view (served.query_state v d) ∙ laws.query_view _ (server d);
      query_result = query_result;
    },
    λ d. refl,
    λ d. refl,
  )
