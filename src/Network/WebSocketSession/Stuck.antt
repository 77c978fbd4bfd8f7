-- ===== src/Network/WebSocketSession/Stuck.antt =====
-- src/Network/WebSocketSession.cc: the texts behind a write that failed.
use ccfolio.Common.{
  ℕ, suc, ◌≡◌, ◌≢◌, refl, inl, inr, List, [], ◌∷◌, ◌++◌, true, Option, none, some, arith, length,
  ltb, Bool-cases, ◌||◌,
}
use ccfolio.Common.Text.{Str, text}
use ccfolio.External.Asio.{ErrorCode, is_aborted, is_closed}
use ccfolio.Network.WebSocketSession.{
  Session, fail, on_accept, on_read, send, on_send, on_write, async_read,
}

-- Handlers that run after a given state: the events of `Run` without the history of what was sent.
pub data Event : Type 0 where
  sent : Str → Event
  handler : Str → List Str → Event
  accept : Option ErrorCode → Event
  read : Option ErrorCode → Event

-- The handlers that can still run where no write is under way.
unfoldable pub handle : Event → Session → Session
handle (sent m) s = send m s
handle (handler m rest) s = on_send m (record s { posted = rest })
handle (accept ec) s = on_accept ec s
handle (read ec) s = on_read ec s

unfoldable pub handle_all : List Event → Session → Session
unfolding handle
handle_all [] s = s
handle_all (e ∷ events) s = handle_all events (handle e s)

-- No write is under way, and the queue is not empty.
abbrev pub IsStuck : Session → Type 0
IsStuck s = (s.writes ≡ []) × (s.queue ≢ [])

fail-same :
    (ec : ErrorCode) (what : Str) (s : Session)
    → ((fail ec what s).writes ≡ s.writes) × ((fail ec what s).queue ≡ s.queue)
unfolding fail
fail-same ec what s = elim (Bool-cases (is_aborted ec.kind || is_closed ec.kind)) [
  | inl e ↦ rw e (refl, refl)
  | inr e ↦ rw e (refl, refl)
]

fail-IsStuck : (ec : ErrorCode) (what : Str) (s : Session) → IsStuck s → IsStuck (fail ec what s)
fail-IsStuck ec what s h = rw ((fail-same ec what s).0, (fail-same ec what s).1) h

on_send-IsStuck :
    (m : Str) (s : Session) (q : List Str)
    → (s.writes ≡ [])
    → q ≢ []
    → IsStuck (on_send m (record s { queue = q }))
unfolding on_send
on_send-IsStuck m s [] idle h = absurd (h refl)
on_send-IsStuck m s (x ∷ []) idle h = (idle, λ e. cc)
on_send-IsStuck m s (x ∷ y ∷ q) idle h = rw (many (length (q ++ m ∷ []))) (idle, λ e. cc)
  where
    many : (n : ℕ) → ltb 1 (suc (suc n)) ≡ true
    many n = ground arith

handle-IsStuck : (e : Event) (s : Session) → IsStuck s → IsStuck (handle e s)
unfolding handle send on_accept on_read async_read
handle-IsStuck (sent m) s h = h
handle-IsStuck (handler m rest) s h = on_send-IsStuck m (record s { posted = rest }) s.queue h.0 h.1
handle-IsStuck (accept none) s h = h
handle-IsStuck (accept (some ec)) s h = fail-IsStuck ec (text "accept") s h
handle-IsStuck (read none) s h = h
handle-IsStuck (read (some ec)) s h = fail-IsStuck ec (text "read") s h

handle_all-IsStuck : (events : List Event) (s : Session) → IsStuck s → IsStuck (handle_all events s)
unfolding handle_all
handle_all-IsStuck [] s h = h
handle_all-IsStuck (e ∷ events) s h = handle_all-IsStuck events (handle e s) (handle-IsStuck e s h)

-- Where a write fails, no other is under way and the queue is not empty: after any calls of `send`
-- and any further handlers there is still no write under way, and the queue is still not empty.
pub on_write_failed-IsStuck :
    (ec : ErrorCode) (s : Session) (events : List Event)
    → s.writes ≡ []
    → s.queue ≢ []
    → IsStuck (handle_all events (on_write (some ec) s))
unfolding on_write
on_write_failed-IsStuck ec s events idle waiting =
    handle_all-IsStuck events _ (fail-IsStuck ec (text "write") s (idle, waiting))
