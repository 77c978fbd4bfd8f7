-- ===== src/Network/HttpSession/Turns.antt =====
-- src/Network/HttpSession.cc: the turns of requests and responses.
use ccfolio.Common.{
  ℕ, ◌+◌, ◌≤◌, ◌≡◌, refl, ap, ◌∙◌, ◌⊎◌, inl, inr, List, [], ◌∷◌, ◌++◌, arith, length, length-append,
  Bool-cases,
}
use ccfolio.Common.Text.{Str, text}
use ccfolio.Common.Effect.{ok}
use ccfolio.External.Odb.{Odb}
use ccfolio.External.Asio.{ErrorCode, is_aborted, is_end_of_stream}
use ccfolio.External.Beast.{Beast}
use ccfolio.Entities.User.{User}
use ccfolio.Http.{HttpRequest, HttpResponse}
use ccfolio.Router.{Routes}
use ccfolio.Service.{Libraries}
use ccfolio.App.{http_router, serve}
use ccfolio.Logging.Macro.{Unprinted}
use ccfolio.App.Dispatch.{serve_returns}
use ccfolio.Network.HttpSession.{
  Operation, reading, writing, Socket, open_socket, HttpSession, Connection, fail, do_read, run,
  send_response, on_request, on_read, on_write, Talk, Run, start, elsewhere, read_failed, upgraded,
  requested, written, write_failed,
}

-- What is under way, and how many requests are still without a response.
pub data Phase : List Operation → Socket → ℕ → Type 0 where
  waiting : Phase (reading ∷ []) open_socket 0
  answering : (res : HttpResponse) → Phase (writing res ∷ []) open_socket 1
  ended : (socket : Socket) (n : ℕ) → n ≤ 1 → Phase [] socket n

pub record InTurn (t : Talk) (s : HttpSession) : Type 0 where
  pub open_requests : ℕ
  pub phase : Phase s.operations s.socket open_requests
  pub counted : length t.asked ≡ length t.answered + open_requests

-- The one operation under way is the one that ends.
read_only :
    {l : List Operation} {socket : Socket} {n : ℕ} (rest : List Operation)
    → Phase l socket n
    → l ≡ reading ∷ rest
    → (rest ≡ []) × (socket ≡ open_socket) × (n ≡ 0)
read_only rest waiting e = (cc, refl, refl)
read_only rest (answering res) e = cc
read_only rest (ended socket n h) e = cc

write_only :
    {l : List Operation} {socket : Socket} {n : ℕ} (rest : List Operation) (res : HttpResponse)
    → Phase l socket n
    → l ≡ writing res ∷ rest
    → (rest ≡ []) × (socket ≡ open_socket) × (n ≡ 1)
write_only rest res waiting e = cc
write_only rest res (answering other) e = (cc, refl, refl)
write_only rest res (ended socket n h) e = cc

-- A session with nothing under way.
over :
    (t : Talk) (s : HttpSession) (n : ℕ)
    → n ≤ 1
    → s.operations ≡ []
    → length t.asked ≡ length t.answered + n
    → InTurn t s
over t s n h e counted = record {
  open_requests = n;
  phase = rw e (ended s.socket n h);
  counted = counted;
}

module _ {D : Type 0} where
  pub fail-session : (ec : ErrorCode) (what : Str) (c : Connection D) → (fail ec what c).1.1 ≡ c.1
  unfolding fail
  fail-session ec what c = elim (Bool-cases (is_aborted ec.kind)) [ inl e ↦ rw e | inr e ↦ rw e ]

  module _ (beast : Beast) (router : Routes D) where
    -- A session has one operation under way, a read or the write of one response, or it has ended. Every
    -- request that was read has had its response written, except at most the last one, whose write is
    -- under way or has failed.
    pub Run-InTurn : (t : Talk) (c : Connection D) → Run beast router t c → InTurn t c.1
    unfolding run do_read on_read on_write on_request send_response
    Run-InTurn _ _ (start w) = record { open_requests = 0; phase = waiting; counted = refl }
    Run-InTurn _ _ (elsewhere {t} {w} {s} w' r) = Run-InTurn t (w, s) r
    Run-InTurn _ _ (read_failed {t} {w} {s} rest ec r e) =
        let o = Run-InTurn t (w, s) r in
        let (last, opened, zero_open) = read_only rest o.phase e in
        let counted = o.counted ∙ ap (λ n. length t.answered + n) zero_open in
        elim (Bool-cases (is_end_of_stream ec.kind)) [
          | inl over_now ↦ rw over_now (over t _ 0 (omega arith) last counted)
          | inr failed ↦ rw failed (
              rw (fail-session ec (text "read") (w, record s { operations = rest }))
                (over t _ 0 (omega arith) last counted))
        ]
    Run-InTurn _ _ (upgraded {t} {w} {s} rest req r e up) =
        let o = Run-InTurn t (w, s) r in
        let (last, opened, zero_open) = read_only rest o.phase e in
        rw up
          (over t _ 0 (omega arith) last (o.counted ∙ ap (λ n. length t.answered + n) zero_open))
    Run-InTurn _ _ (requested {t} {w} {s} rest req r e plain returned) =
        let o = Run-InTurn t (w, s) r in
        let (last, opened, zero_open) = read_only rest o.phase e in
        rw (plain, returned)
          (record {
            open_requests = 1;
            phase = rw (last, opened) (answering _);
            counted = omega (arith, length-append t.asked (req ∷ []), o.counted, zero_open);
          })
    Run-InTurn _ _ (written {t} {w} {s} rest res r e) =
        let o = Run-InTurn t (w, s) r in
        let (last, opened, one_open) = write_only rest res o.phase e in
        let counted : length t.asked ≡ length (t.answered ++ res ∷ []) + 0 =
          omega (arith, length-append t.answered (res ∷ []), o.counted, one_open) in
        elim (Bool-cases (beast.need_eof res)) [
          | inl close ↦ rw close (over _ _ 0 (omega arith) last counted)
          | inr again ↦
              rw again
                (record { open_requests = 0; phase = rw (last, opened) waiting; counted = counted })
        ]
    Run-InTurn _ _ (write_failed {t} {w} {s} rest res ec r e) =
        let o = Run-InTurn t (w, s) r in
        let (last, opened, one_open) = write_only rest res o.phase e in
        rw (fail-session ec (text "write") (w, record s { operations = rest }))
          (over t _ 1 (omega arith) last (o.counted ∙ ap (λ n. length t.answered + n) one_open))

-- With the routes of `main`: whatever was read and whichever error there was, the handler of a read
-- returns, or it ends with the exception of a text that could not be printed for the log. No other
-- exception leaves it.
pub on_read_returns :
    (lib : Libraries) (odb : Odb User ℕ Str) (beast : Beast) (read : ErrorCode ⊎ HttpRequest)
    (c : Connection odb.Db)
    → ((on_read beast (http_router lib odb) read c).0 ≡ ok tt)
      ⊎ Unprinted lib.json (on_read beast (http_router lib odb) read c).0
unfolding on_read on_request send_response fail serve
on_read_returns lib odb beast (inl ec) c = elim (Bool-cases (is_end_of_stream ec.kind)) [
  | inl e ↦ inl (rw e)
  | inr e ↦ elim (Bool-cases (is_aborted ec.kind)) [
    | inl f ↦ inl (rw (e, f))
    | inr f ↦ inl (rw (e, f))
  ]
]
on_read_returns lib odb beast (inr req) c = elim (Bool-cases (beast.is_upgrade req)) [
  | inl e ↦ inl (rw e)
  | inr e ↦ elim (serve_returns lib odb req c.0) [
    | inl f ↦ inl (rw (e, f))
    | inr (m, message, f, p) ↦ inr (m, message, rw (e, f), p)
  ]
]
