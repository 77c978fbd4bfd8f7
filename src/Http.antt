-- ===== src/Http.antt =====
-- The request and response of Boost.Beast as the program uses them: src/Network/Router.h (the type
-- names and `Handler`).
use ccfolio.Common.{ℕ, Bool, true, false, Option, none, some, []}
use ccfolio.Common.Text.{Str}
use ccfolio.Common.Effect.{Outcome, M}
use ccfolio.External.World.{World}

-- `find` is the case-insensitive lookup of a header field.
pub record HttpRequest : Type 0 where
  pub method_string : Str
  pub target : Str
  pub find : Str → Option Str
  pub body : Str
  pub version : ℕ
  pub keep_alive : Bool

-- The statuses that the program answers with.
pub data Status : Type 0 where
  ok bad_request unauthorized not_found : Status

-- `prepared` records a call of `prepare_payload` since the body was last written.
pub record HttpResponse : Type 0 where
  pub version : ℕ
  pub keep_alive : Bool
  pub result : Status
  pub content_type : Option Str
  pub body : Str
  pub prepared : Bool

-- `HttpResponse res;`
abbrev pub empty_response : HttpResponse
empty_response = record {
  version = 11;
  keep_alive = true;
  result = Status.ok;
  content_type = none;
  body = [];
  prepared = false;
}

-- The state of a handler: the world, and the response that it was given by reference.
abbrev pub Exchange : Type 0 → Type 0
Exchange D = World D × HttpResponse

abbrev pub Handler : Type 0 → Type 0
Handler D = HttpRequest → M (Exchange D) (Unit {0})

module _ {D : Type 0} where
  abbrev pub carry : {A : Type 0} → HttpResponse → Outcome A × World D → Outcome A × Exchange D
  carry res (o, w) = (o, (w, res))

  -- A call that does not see the response.
  abbrev pub with_world : {A : Type 0} → M (World D) A → M (Exchange D) A
  with_world m s = carry s.1 (m s.0)

  abbrev pub modify : (HttpResponse → HttpResponse) → M (Exchange D) (Unit {0})
  modify f s = (Outcome.ok tt, (s.0, f s.1))

  -- `res.result(status)`
  abbrev pub set_result : Status → M (Exchange D) (Unit {0})
  set_result status = modify λ res. record res { result = status }

  -- `res.set(http::field::content_type, value)`
  abbrev pub set_content_type : Str → M (Exchange D) (Unit {0})
  set_content_type value = modify λ res. record res { content_type = some value }

  -- `res.body() = value`
  abbrev pub set_body : Str → M (Exchange D) (Unit {0})
  set_body value = modify λ res. record res { body = value; prepared = false }

  abbrev pub prepare_payload : M (Exchange D) (Unit {0})
  prepare_payload = modify λ res. record res { prepared = true }
