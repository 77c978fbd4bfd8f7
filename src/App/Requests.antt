-- ===== src/App/Requests.antt =====
-- app/main.cc: the program over any sequence of requests.
use ccfolio.Common.{
  ℕ, ◌≡◌, ◌≢◌, refl, sym, ap, subst, ◌∙◌, ◌⊎◌, inl, inr, some, List, [], ◌∷◌, ◌++◌, append_assoc,
  append-nil, Bool-cases,
}
use ccfolio.Common.Text.{Str, str_eq}
use ccfolio.Common.Effect.{Outcome}
use ccfolio.External.World.{World}
use ccfolio.External.Odb.{Odb}
use ccfolio.External.Odb.Laws.{OdbLaws}
use ccfolio.Entities.OperationResult.{failure_result, option_default}
use ccfolio.Entities.User.{User}
use ccfolio.Http.{HttpRequest, Handler}
use ccfolio.Repositories.UserRepository.{
  user_repository, get_user_by_username, create_user, something_happened,
}
use ccfolio.Repositories.UserRepository.Lookup.{user_schema, get_user_by_username-cases}
use ccfolio.Repositories.UserRepository.Registration.{create_user-cases, with_id}
use ccfolio.Repositories.UserRepository.Distinct.{Distinct, create_user-Distinct}
use ccfolio.Service.{Libraries}
use ccfolio.Service.Keeps.{create_user-creates, user_login-keeps}
use ccfolio.Controllers.Keeps.{
  db_of, handle_create_user-db, handle_user_login-db, guarded_hello_world-db,
}
use ccfolio.Router.{key, find}
use ccfolio.App.{http_router, serve}
use ccfolio.App.Table.{
  blank, handle_request_found, handle_request_missing, create_path, login_path, test_path, post,
  create_handler, login_handler, test_handler, find-http_router,
}

module _ (lib : Libraries) (odb : Odb User ℕ Str) where
  open lib use {jwt, config}

  -- The program over time: requests one after another, in any number. Between two of them the clock,
  -- the random device and the log may change.
  pub data Requests (w : World odb.Db) : World odb.Db → Type 0 where
    none_yet : Requests w w
    served :
        {v : World odb.Db} (req : HttpRequest) (u : World odb.Db)
        → Requests w v
        → u.db ≡ v.db
        → Requests w (serve lib odb req u).1.0

  module _ (req : HttpRequest) (w : World odb.Db) where
    served_by :
        (handler : Handler odb.Db)
        → find (key req.method_string req.target) (http_router lib odb) ≡ some handler
        → serve lib odb req w ≡ handler req (w, blank req)
    unfolding serve
    served_by handler e = handle_request_found (http_router lib odb) req w handler e

    -- One request is a registration, a login, or leaves the database alone.
    serve-db :
        (db_of (serve lib odb req w) ≡ db_of (create_handler lib odb req (w, blank req)))
        ⊎ (db_of (serve lib odb req w) ≡ db_of (login_handler lib odb req (w, blank req)))
        ⊎ (db_of (serve lib odb req w) ≡ w.db)
    unfolding serve
    serve-db =
        let k = key req.method_string req.target in
        let table = find-http_router lib odb k in
        elim (Bool-cases (str_eq (post test_path) k)) [
          | inl is_test ↦ inr (
              inr (
                ap db_of (served_by (test_handler lib odb) (table ∙ rw is_test))
                ∙ guarded_hello_world-db lib (user_repository odb) req w (blank req)))
          | inr not_test ↦ elim (Bool-cases (str_eq (post login_path) k)) [
            | inl is_login ↦ inr (
                inl
                  (ap db_of (served_by (login_handler lib odb) (table ∙ rw (not_test, is_login)))))
            | inr not_login ↦ elim (Bool-cases (str_eq (post create_path) k)) [
              | inl is_create ↦ inl (
                  ap db_of (
                    served_by (create_handler lib odb)
                      (table ∙ rw (not_test, not_login, is_create))))
              | inr not_create ↦ inr (
                  inr (
                    ap db_of (
                      handle_request_missing (http_router lib odb) req w
                        (table ∙ rw (not_test, not_login, not_create)))))
            ]
          ]
        ]

  -- What registrations lead to and lookups keep, one request leads to.
  serve-creates :
      (P Q : odb.Db → Type 0)
      → ((d : odb.Db) → P d → Q d)
      → ((user : User) (w : World odb.Db) → P w.db → Q (create_user odb user w).1.db)
      → ((username : Str) (w : World odb.Db)
          → P w.db
          → P (get_user_by_username odb username w).1.db)
      → (req : HttpRequest) (w : World odb.Db) → P w.db
      → Q (serve lib odb req w).1.0.db
  serve-creates P Q weaken creates looks req w h =
      let repo = user_repository odb in
      elim (serve-db req w) [
        | inl e ↦
            subst Q (sym (e ∙ handle_create_user-db lib repo req w (blank req)))
              (create_user-creates lib repo P Q weaken creates req.body w h)
        | inr (inl e) ↦ weaken _ (
            subst P (sym (e ∙ handle_user_login-db lib repo req w (blank req)))
              (user_login-keeps lib repo P looks req.body w h))
        | inr (inr e) ↦ weaken _ (subst P (sym e) h)
      ]

  module _ (laws : OdbLaws odb user_schema) where
    open laws use {rows}

    looks-rows :
        (username : Str) (w : World odb.Db)
        → rows (get_user_by_username odb username w).1.db ≡ rows w.db
    looks-rows username w = (get_user_by_username-cases odb laws username w).1

    -- At most one row more than `l`, at the end.
    abbrev Grown : List User → odb.Db → Type 0
    Grown l d = (rows d ≡ l) ⊎ ((user : User) × (rows d ≡ l ++ user ∷ []))

    creates-Grown :
        (l : List User) (user : User) (w : World odb.Db)
        → rows w.db ≡ l
        → Grown l (create_user odb user w).1.db
    creates-Grown l user w e = elim (create_user-cases odb laws user w) [
      | inl ((_, same), _) ↦ inl (same ∙ e)
      | inr (_, inr (_, same)) ↦ inl (same ∙ e)
      | inr (_, inl (_, (id, stored))) ↦
          inr (with_id id user, stored ∙ ap (λ k. k ++ with_id id user ∷ []) e)
    ]

    serve-Grown :
        (req : HttpRequest) (w : World odb.Db) → Grown (rows w.db) (serve lib odb req w).1.0.db
    serve-Grown req w =
        serve-creates (λ d. rows d ≡ rows w.db) (Grown (rows w.db)) (λ d e. inl e)
          (λ user v e. creates-Grown (rows w.db) user v e)
          (λ username v e. looks-rows username v ∙ e) req w refl

    -- The program never changes or removes a user that is stored, whatever requests come and however
    -- the libraries and the database fail on them: what is stored later is what was stored before,
    -- in the same order, followed by what registrations have added.
    pub Requests-grow :
        (w v : World odb.Db) → Requests w v → (added : List User) × (rows v.db ≡ rows w.db ++ added)
    Requests-grow w _ none_yet = ([], sym (append-nil (rows w.db)))
    Requests-grow w _ (served req u earlier same) =
        let (added, before) = Requests-grow w _ earlier in
        let now : rows u.db ≡ rows w.db ++ added = ap rows same ∙ before in
        elim (serve-Grown req u) [
          | inl e ↦ (added, e ∙ now)
          | inr (user, e) ↦ (
            added ++ user ∷ [],
            e ∙ ap (λ l. l ++ user ∷ []) now ∙ append_assoc (rows w.db) added (user ∷ []),
          )
        ]

    -- Let the usernames be distinct at first, let requests be served one after another, and let no
    -- lookup fail on the database. Then the usernames are distinct after any number of requests.
    pub Requests-Distinct :
        ((username : Str) (w : World odb.Db)
          → (get_user_by_username odb username w).0
            ≢ Outcome.ok (failure_result something_happened))
        → (w v : World odb.Db) → Distinct (rows w.db)
        → Requests w v
        → Distinct (rows v.db)
    Requests-Distinct answered w _ d none_yet = d
    Requests-Distinct answered w _ d (served req u earlier same) =
        serve-creates (λ t. Distinct (rows t)) (λ t. Distinct (rows t)) (λ t h. h)
          (λ user v h. create_user-Distinct odb laws user v h (answered user.username v))
          (λ username v h. subst Distinct (sym (looks-rows username v)) h) req u
          (subst (λ t. Distinct (rows t)) (sym same) (Requests-Distinct answered w _ d earlier))
