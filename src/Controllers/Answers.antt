-- ===== src/Controllers/Answers.antt =====
-- app/Controllers: what the handlers answer.
use ccfolio.Common.{◌⊎◌, ◌≡◌, refl, inl, inr, true, some, if◌then◌else◌}
use ccfolio.Common.Text.{Str, text}
use ccfolio.Common.Effect.{Outcome, json_error, throw, recover, what}
use ccfolio.External.World.{World}
use ccfolio.Logging.{error}
use ccfolio.Logging.Macro.{log_error, Returned, log-Returned}
use ccfolio.External.Json.{JsonLib}
use ccfolio.Http.{HttpRequest, HttpResponse, Status, bad_request, Exchange}
use ccfolio.Dtos.{UserDto, ResponseDto, response_to_json, user_to_json}
use ccfolio.Interfaces.{IUserRepository}
use ccfolio.Service.{Libraries}
use ccfolio.Controllers.{log_only, handle_create_user, handle_user_login, handle_hello_world}

-- A handler whose body is guarded by the controllers' `catch` returns, but for a text that cannot be
-- printed for the log.
guarded-Returned :
    {D : Type 0} (json : JsonLib) (r : Outcome (Unit {0}) × Exchange D)
    → Returned json (recover (log_only json) r).0
guarded-Returned json (Outcome.ok u, s) = inl refl
guarded-Returned json (throw x, (w, res)) = log-Returned json error (what x) w

abbrev pub status_of : ResponseDto UserDto → Status
status_of r = if r.is_success then Status.ok else bad_request

-- A complete JSON answer.
abbrev pub json_answer : Status → Str → HttpResponse → HttpResponse
json_answer status body res = record res {
  result = status;
  content_type = some (text "application/json");
  body = body;
  prepared = true;
}

-- The JSON of a response of the service.
abbrev pub json_of : (json : JsonLib) → ResponseDto UserDto → json.Json
json_of json r = response_to_json json (user_to_json json) r

module _ {D : Type 0} (json : JsonLib) (res : HttpResponse) where
  -- The complete JSON answer for what the service returned.
  abbrev Complete :
      Outcome (ResponseDto UserDto) × World D → Outcome (Unit {0}) × Exchange D → Type 0
  Complete service r =
      (dto : ResponseDto UserDto) × (body : Str) × (service.0 ≡ Outcome.ok dto)
      × (json.dump (json_of json dto) ≡ inr body)
      × (r ≡ (Outcome.ok tt, (service.1, json_answer (status_of dto) body res)))

  -- No answer: a text could not be printed, in the service or as the answer, and only that is logged.
  abbrev Unanswered :
      Outcome (ResponseDto UserDto) × World D → Outcome (Unit {0}) × Exchange D → Type 0
  Unanswered service r =
      (m : Str) × ((service.0 ≡ throw (json_error m))
        ⊎ ((dto : ResponseDto UserDto) × (service.0 ≡ Outcome.ok dto)
            × (json.dump (json_of json dto) ≡ inl m)))
      × (r.1.1.body ≡ res.body)
      × (r.1.1.prepared ≡ res.prepared)
      × ((r.0, r.1.0) ≡ log_error json (json_error m) service.1)

  abbrev pub Answer :
      Outcome (ResponseDto UserDto) × World D → Outcome (Unit {0}) × Exchange D → Type 0
  Answer service r = Complete service r ⊎ Unanswered service r

  abbrev Lost : Str → World D → Outcome (Unit {0}) × Exchange D → Type 0
  Lost m w r =
      (r.1.1.body ≡ res.body)
      × (r.1.1.prepared ≡ res.prepared)
      × ((r.0, r.1.0) ≡ log_error json (json_error m) w)

module _ (lib : Libraries) {D : Type 0} where
  open lib use {json}

  pub handlers_return :
      (repo : IUserRepository D) (req : HttpRequest) (s : Exchange D)
      → Returned json (handle_create_user lib repo req s).0
        × Returned json (handle_user_login lib repo req s).0
        × Returned json (handle_hello_world lib req s).0
  unfolding handle_create_user handle_user_login handle_hello_world
  handlers_return repo req s =
      (guarded-Returned json _, guarded-Returned json _, guarded-Returned json _)
