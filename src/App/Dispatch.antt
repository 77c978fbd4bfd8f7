-- ===== src/App/Dispatch.antt =====
-- app/main.cc: which requests the program answers, and how.
use ccfolio.Common.{
  false, ℕ, ◌≡◌, sym, ap, ap₂, ◌∙◌, some, false, if◌then◌else◌, not_true, ◌⊎◌, inl, inr, subst,
  Bool-cases,
}
use ccfolio.Common.Text.{Str, str_eq, str_eq_iff, str_eq_refl}
use ccfolio.Common.Effect.{Outcome}
use ccfolio.External.World.{World}
use ccfolio.External.Odb.{Odb}
use ccfolio.Entities.User.{User}
use ccfolio.Http.{HttpRequest, Handler, Exchange}
use ccfolio.Middleware.{with_authentication}
use ccfolio.Middleware.Gate.{with_authentication-Returned}
use ccfolio.Logging.Macro.{Unprinted, Returned}
use ccfolio.Repositories.UserRepository.{user_repository}
use ccfolio.Service.{Libraries}
use ccfolio.Controllers.{handle_create_user, handle_user_login, handle_hello_world}
use ccfolio.Controllers.Answers.{handlers_return}
use ccfolio.Router.{key, find}
use ccfolio.Router.Lookup.{NoColon, key_injective}
use ccfolio.App.{http_router, serve}
use ccfolio.App.Table.{
  AsksFor, asks, asks_iff, not_asked, blank, not_found_response, handle_request_found,
  handle_request_missing, create_path, login_path, test_path, post, paths_apart, post-NoColon,
  create_handler, login_handler, test_handler, find-http_router,
}

module _ (lib : Libraries) (odb : Odb User ℕ Str) where
  open lib use {jwt, json, config}

  module _ (req : HttpRequest) (w : World odb.Db) where
    serve_found :
        (path : Str) (handler : Handler odb.Db)
        → AsksFor req path
        → find (post path) (http_router lib odb) ≡ some handler
        → serve lib odb req w ≡ handler req (w, blank req)
    unfolding serve
    serve_found path handler (m, t) e =
        handle_request_found (http_router lib odb) req w handler
          (ap₂ (λ a b. find (key a b) (http_router lib odb)) m t ∙ e)

    -- Whether a request asks for one of the three routes, as the router compares.
    other_key :
        (path : Str)
        → NoColon req.method_string
        → ¬ AsksFor req path
        → str_eq (post path) (key req.method_string req.target) ≡ false
    other_key path plain other = not_true _ λ same.
        let e = (str_eq_iff _ _).0 same in
        let (m, t) = key_injective _ _ _ _ post-NoColon plain e in other (sym m, sym t)

    -- The same for each route alone.
    pub serve-routes :
        NoColon req.method_string
        → (AsksFor req create_path
            → serve lib odb req w ≡ handle_create_user lib (user_repository odb) req (w, blank req))
          × (AsksFor req login_path
              → serve lib odb req w
                ≡ handle_user_login lib (user_repository odb) req (w, blank req))
          × (AsksFor req test_path
              → serve lib odb req w
                ≡ with_authentication jwt config (handle_hello_world lib) req (w, blank req))
          × (¬ AsksFor req create_path
              → ¬ AsksFor req login_path
              → ¬ AsksFor req test_path
              → serve lib odb req w ≡ (Outcome.ok tt, (w, not_found_response req)))
    unfolding serve
    serve-routes plain = (
      λ asks. serve_found create_path (create_handler lib odb) asks (
          find-http_router lib odb (post create_path)
          ∙ rw (paths_apart.0, paths_apart.2, str_eq_refl (post create_path))),
      λ asks. serve_found login_path (login_handler lib odb) asks (
          find-http_router lib odb (post login_path)
          ∙ rw (paths_apart.1, str_eq_refl (post login_path))),
      λ asks.
          serve_found test_path (test_handler lib odb) asks
            (find-http_router lib odb (post test_path) ∙ rw (str_eq_refl (post test_path))),
      λ not_create not_login not_test. handle_request_missing (http_router lib odb) req w (
          find-http_router lib odb (key req.method_string req.target)
          ∙ rw (
            other_key test_path plain not_test,
            other_key login_path plain not_login,
            other_key create_path plain not_create,
          )),
    )

    -- A request whose method holds no colon is answered by its route. `POST /user/create`, `POST
    -- /user/login` and `POST /test` run their handlers, the last behind the check of the token, on
    -- a response that has only the version and keep-alive of the request. Any other request is
    -- answered 404, and nothing else happens.
    pub serve-dispatch :
        NoColon req.method_string
        → serve lib odb req w ≡ (
            if asks req create_path
            then handle_create_user lib (user_repository odb) req (w, blank req)
            else if asks req login_path
            then handle_user_login lib (user_repository odb) req (w, blank req)
            else if asks req test_path
            then with_authentication jwt config (handle_hello_world lib) req (w, blank req)
            else (Outcome.ok tt, (w, not_found_response req)))
    serve-dispatch plain =
        let routes = serve-routes plain in
        elim (Bool-cases (asks req create_path)) [
          | inl a ↦ rw a (routes.0 ((asks_iff req create_path).0 a))
          | inr a ↦ elim (Bool-cases (asks req login_path)) [
            | inl b ↦ rw (a, b) (routes.1 ((asks_iff req login_path).0 b))
            | inr b ↦ elim (Bool-cases (asks req test_path)) [
              | inl c ↦ rw (a, b, c) (routes.2 ((asks_iff req test_path).0 c))
              | inr c ↦
                  rw (a, b, c)
                    (routes.3 (not_asked req create_path a) (not_asked req login_path b)
                      (not_asked req test_path c))
            ]
          ]
        ]

    entry-Returned :
        (handler : Handler odb.Db)
        → find (key req.method_string req.target) (http_router lib odb) ≡ some handler
        → Returned json (handler req (w, blank req)).0
        → Returned json (serve lib odb req w).0
    unfolding serve
    entry-Returned handler e returned =
        subst (λ (r : Outcome (Unit {0}) × Exchange odb.Db). Returned json r.0)
          (sym (handle_request_found (http_router lib odb) req w handler e)) returned

    -- The exception that leaves `handle_request`, where there is one, is that of a text that could not
    -- be printed for the log.
    pub serve_returns :
        ((serve lib odb req w).0 ≡ Outcome.ok tt) ⊎ Unprinted json (serve lib odb req w).0
    unfolding serve
    serve_returns =
        let k = key req.method_string req.target in
        let table = find-http_router lib odb k in
        let (created, logged_in, greeted) =
          handlers_return lib (user_repository odb) req (w, blank req) in
        elim (Bool-cases (str_eq (post test_path) k)) [
          | inl is_test ↦ entry-Returned (test_handler lib odb) (table ∙ rw is_test) (
              with_authentication-Returned jwt config (handle_hello_world lib) req json w
                (blank req) greeted)
          | inr not_test ↦ elim (Bool-cases (str_eq (post login_path) k)) [
            | inl is_login ↦
                entry-Returned (login_handler lib odb) (table ∙ rw (not_test, is_login)) logged_in
            | inr not_login ↦ elim (Bool-cases (str_eq (post create_path) k)) [
              | inl is_create ↦
                  entry-Returned (create_handler lib odb)
                    (table ∙ rw (not_test, not_login, is_create)) created
              | inr not_create ↦ inl (
                  ap (λ r. r.0)
                    (handle_request_missing (http_router lib odb) req w
                      (table ∙ rw (not_test, not_login, not_create))))
            ]
          ]
        ]
