-- ===== src/App/Main/Runs.antt =====
-- app/main.cc: what can happen next while the program runs.
use ccfolio.Common.{ℕ, suc, ◌≡◌, ◌≢◌, inl, inr, [], true, false, some}
use ccfolio.External.World.{World}
use ccfolio.External.Asio.{ErrorCode}
use ccfolio.Http.{HttpRequest, empty_response}
use ccfolio.App.{handle_request}
use ccfolio.Common.Effect.{ok}
use ccfolio.App.Main.{
  Program, running, serving, joining, thread_at, on_signal, on_connection, on_request, thread_ends,
  main_leaves, join,
}

-- A handler is run by one of the threads in `ioContext.run()`, which all stay there until the
-- context is stopped: the wait for signals is work that never ends before. An acceptor that does not
-- listen accepts nothing, and a request comes from the socket of a session. A request is one step,
-- however many threads there are; an exception out of it ends the process, and has no step here
-- (Network.HttpSession.Escapes).
module _ {D : Type 0} where
  pub data Step (p : Program D) : Program D → Type 0 where
    connected :
        (socket : ℕ)
        → p.stopped ≡ false
        → p.listener.listening ≡ true
        → Step p (on_connection (inr socket) p)
    refused : (ec : ErrorCode) → p.stopped ≡ false → Step p (on_connection (inl ec) p)
    requested :
        (req : HttpRequest) (w : World D)
        → p.stopped ≡ false
        → p.listener.sessions ≢ []
        → w.db ≡ p.world.db
        → (handle_request p.router req (w, empty_response)).0 ≡ ok tt
        → Step p (on_request req w p)
    signalled : p.stopped ≡ false → p.signals_waiting ≡ true → Step p (on_signal p)
    thread_ended :
        (n : ℕ) → p.stopped ≡ true → thread_at n p.threads ≡ some running → Step p (thread_ends n p)
    main_left : p.stopped ≡ true → p.thread_of_main ≡ serving → Step p (main_leaves p)
    joined :
        (n : ℕ)
        → p.thread_of_main ≡ joining n
        → thread_at n p.threads ≢ some running
        → Step p (join n (thread_at n p.threads) p)

  pub data Steps (p : Program D) : ℕ → Program D → Type 0 where
    here : Steps p 0 p
    and_then : {n : ℕ} {q r : Program D} → Steps p n q → Step q r → Steps p (suc n) r
