-- ===== src/Network/HttpSession.antt =====
-- src/Network/HttpSession.cc: the handlers of one connection, and the runs of them.
pub mod Turns
pub mod Answers
pub mod Escapes
use ccfolio.Common.{
  ℕ, ◌≡◌, ◌⊎◌, inl, inr, List, [], ◌∷◌, ◌++◌, Bool, true, false, Option, none, some, if◌then◌else◌,
}
use ccfolio.Common.Text.{Str, text}
use ccfolio.Common.Effect.{Exception, Outcome, ok, throw, M, pure, ◌>>=◌, ◌>>◌}
use ccfolio.Logging.{error}
use ccfolio.External.World.{World, log}
use ccfolio.External.Asio.{ErrorCode, is_aborted, is_end_of_stream, error_line}
use ccfolio.External.Beast.{Beast}
use ccfolio.Http.{HttpRequest, HttpResponse, Exchange, empty_response}
use ccfolio.Router.{Routes}
use ccfolio.App.{handle_request}

-- An operation that Asio has under way for the session.
pub data Operation : Type 0 where
  reading : Operation
  writing : HttpResponse → Operation

pub data Socket : Type 0 where
  open_socket shutdown_send released : Socket

-- `body_limit` is that of the parser, `none` before the first one is made; `expires_after` is in
-- seconds.
pub record HttpSession : Type 0 where
  pub operations : List Operation
  pub socket : Socket
  pub body_limit : Option ℕ
  pub expires_after : ℕ

-- The constructor.
abbrev pub http_session : HttpSession
http_session = record {
  operations = [];
  socket = open_socket;
  body_limit = none;
  expires_after = 0;
}

-- The state of a handler: the world, and its own session.
abbrev pub Connection : Type 0 → Type 0
Connection D = World D × HttpSession

-- The requests that were read, and the responses that were written.
pub record Talk : Type 0 where
  pub asked : List HttpRequest
  pub answered : List HttpResponse

module _ {D : Type 0} where
  abbrev pub keep : {A : Type 0} → HttpSession → Outcome A × World D → Outcome A × Connection D
  keep s (o, w) = (o, (w, s))

  abbrev pub modify : (HttpSession → HttpSession) → M (Connection D) (Unit {0})
  modify f c = (ok tt, (c.0, f c.1))

  unfoldable pub fail : ErrorCode → Str → M (Connection D) (Unit {0})
  fail ec what c =
      if is_aborted ec.kind then (ok tt, c) else keep c.1 (log error (error_line ec what) c.0)

  unfoldable pub do_read : M (Connection D) (Unit {0})
  do_read = modify λ s. record s {
    body_limit = some 10000;
    expires_after = 100;
    operations = s.operations ++ reading ∷ [];
  }

  unfoldable pub run : M (Connection D) (Unit {0})
  unfolding do_read
  run = do_read

  -- `stream_.socket().shutdown(tcp::socket::shutdown_send, ec)`, whose error is not looked at
  abbrev pub shutdown : M (Connection D) (Unit {0})
  shutdown = modify λ s. record s { socket = shutdown_send }

  -- The `send` that `handle_request` is given; an exception of a handler goes on.
  unfoldable pub send_response :
      HttpSession → Outcome (Unit {0}) × Exchange D → Outcome (Unit {0}) × Connection D
  send_response s (ok _, (w, res)) =
      (ok tt, (w, record s { operations = s.operations ++ writing res ∷ [] }))
  send_response s (throw e, (w, res)) = (throw e, (w, s))

  module _ (beast : Beast) (router : Routes D) where
    unfoldable pub on_request : HttpRequest → M (Connection D) (Unit {0})
    unfolding send_response
    on_request req c =
        if beast.is_upgrade req
        then (ok tt, (c.0, record c.1 { socket = released }))
        else send_response c.1 (handle_request router req (c.0, empty_response))

    unfoldable pub on_read : ErrorCode ⊎ HttpRequest → M (Connection D) (Unit {0})
    unfolding fail on_request
    on_read (inl ec) = if is_end_of_stream ec.kind then shutdown else fail ec (text "read")
    on_read (inr req) = on_request req

  unfoldable pub on_write : Option ErrorCode → Bool → M (Connection D) (Unit {0})
  unfolding fail do_read
  on_write (some ec) close = fail ec (text "write")
  on_write none close = if close then shutdown else do_read

  -- The runs of a session, whose operations end in any way. Between its handlers other sessions
  -- change the world.
  pub data Run (beast : Beast) (router : Routes D) : Talk → Connection D → Type 0 where
    start :
        (w : World D)
        → Run beast router (record { asked = []; answered = [] }) (run (w, http_session)).1
    elsewhere :
        {t : Talk} {w : World D} {s : HttpSession} (w' : World D)
        → Run beast router t (w, s)
        → Run beast router t (w', s)
    read_failed :
        {t : Talk} {w : World D} {s : HttpSession} (rest : List Operation) (ec : ErrorCode)
        → Run beast router t (w, s)
        → s.operations ≡ reading ∷ rest
        → Run beast router t (on_read beast router (inl ec) (w, record s { operations = rest })).1
    upgraded :
        {t : Talk} {w : World D} {s : HttpSession} (rest : List Operation) (req : HttpRequest)
        → Run beast router t (w, s)
        → s.operations ≡ reading ∷ rest
        → beast.is_upgrade req ≡ true
        → Run beast router t (on_read beast router (inr req) (w, record s { operations = rest })).1
    requested :
        {t : Talk} {w : World D} {s : HttpSession} (rest : List Operation) (req : HttpRequest)
        → Run beast router t (w, s)
        → s.operations ≡ reading ∷ rest
        → beast.is_upgrade req ≡ false
        → (handle_request router req (w, empty_response)).0 ≡ ok tt
        → Run beast router
            (record t { asked = t.asked ++ req ∷ [] })
            (on_read beast router (inr req) (w, record s { operations = rest })).1
    written :
        {t : Talk} {w : World D} {s : HttpSession} (rest : List Operation) (res : HttpResponse)
        → Run beast router t (w, s)
        → s.operations ≡ writing res ∷ rest
        → Run beast router
            (record t { answered = t.answered ++ res ∷ [] })
            (on_write none (beast.need_eof res) (w, record s { operations = rest })).1
    write_failed :
        {t : Talk} {w : World D} {s : HttpSession} (rest : List Operation) (res : HttpResponse)
        (ec : ErrorCode)
        → Run beast router t (w, s)
        → s.operations ≡ writing res ∷ rest
        → Run beast router t
            (on_write (some ec) (beast.need_eof res) (w, record s { operations = rest })).1
