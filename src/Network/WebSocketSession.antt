-- ===== src/Network/WebSocketSession.antt =====
-- src/Network/WebSocketSession.cc: the handlers of one session, which run on its strand, one after
-- the other.
pub mod Order
pub mod Stuck
use ccfolio.Common.{
  ℕ, suc, ◌≡◌, ◌||◌, List, [], ◌∷◌, ◌++◌, Bool, true, false, Option, none, some, if◌then◌else◌, ltb,
  length, drop,
}
use ccfolio.Common.Text.{Str, text}
use ccfolio.External.Asio.{ErrorCode, is_aborted, is_closed, error_line}

-- `posted` are the messages of `net::post` whose handler has not run. The last three fields are what
-- Asio holds for the session: accepts and reads under way, and the texts being written.
pub record Session : Type 0 where
  pub buffer : Str
  pub queue : List Str
  pub posted : List Str
  pub joined : Bool
  pub log : List Str
  pub accepts : ℕ
  pub reads : ℕ
  pub writes : List Str

-- The constructor.
abbrev pub new_session : Session
new_session = record {
  buffer = [];
  queue = [];
  posted = [];
  joined = false;
  log = [];
  accepts = 0;
  reads = 0;
  writes = [];
}

unfoldable pub fail : ErrorCode → Str → Session → Session
fail ec what s =
    if is_aborted ec.kind || is_closed ec.kind
    then s
    else record s { log = s.log ++ error_line ec what ∷ [] }

-- `ws_.async_accept(req, …)`, after the options are set
unfoldable pub run : Session → Session
run s = record s { accepts = suc s.accepts }

unfoldable pub async_read : Session → Session
async_read s = record s { reads = suc s.reads }

unfoldable pub async_write : Str → Session → Session
async_write m s = record s { writes = s.writes ++ m ∷ [] }

unfoldable pub on_accept : Option ErrorCode → Session → Session
unfolding fail async_read
on_accept (some ec) s = fail ec (text "accept") s
on_accept none s = async_read (record s { joined = true })

unfoldable pub on_read : Option ErrorCode → Session → Session
unfolding fail async_read
on_read (some ec) s = fail ec (text "read") s
on_read none s = async_read (record s { buffer = [] })

-- `net::post` of `on_send`
unfoldable pub send : Str → Session → Session
send m s = record s { posted = s.posted ++ m ∷ [] }

-- `async_write` of the front of the queue; with an empty queue there is none.
unfoldable pub write_front : List Str → Session → Session
unfolding async_write
write_front [] s = s
write_front (m ∷ _) s = async_write m s

unfoldable pub on_send : Str → Session → Session
unfolding write_front
on_send m s =
    let pushed = record s { queue = s.queue ++ m ∷ [] } in
    if ltb 1 (length pushed.queue) then pushed else write_front pushed.queue pushed

unfoldable pub on_write : Option ErrorCode → Session → Session
unfolding fail write_front
on_write (some ec) s = fail ec (text "write") s
on_write none s =
    let erased = record s { queue = drop 1 s.queue } in write_front erased.queue erased

-- What was given to `send` so far, and what was written without an error.
pub record History : Type 0 where
  pub sent : List Str
  pub delivered : List Str

-- The runs of a session: `send` is called, a posted handler runs, or an operation that is under way
-- ends, with or without an error.
pub data Run : History → Session → Type 0 where
  start : Run (record { sent = []; delivered = [] }) (run new_session)
  sends :
      {h : History} {s : Session} (m : Str)
      → Run h s
      → Run (record h { sent = h.sent ++ m ∷ [] }) (send m s)
  sent_handler :
      {h : History} {s : Session} (m : Str) (rest : List Str)
      → Run h s
      → s.posted ≡ m ∷ rest
      → Run h (on_send m (record s { posted = rest }))
  accepted :
      {h : History} {s : Session} (n : ℕ) (ec : Option ErrorCode)
      → Run h s
      → s.accepts ≡ suc n
      → Run h (on_accept ec (record s { accepts = n }))
  read :
      {h : History} {s : Session} (n : ℕ) (ec : Option ErrorCode) (bytes : Str)
      → Run h s
      → s.reads ≡ suc n
      → Run h (on_read ec (record s { reads = n; buffer = s.buffer ++ bytes }))
  written :
      {h : History} {s : Session} (m : Str) (rest : List Str)
      → Run h s
      → s.writes ≡ m ∷ rest
      → Run
          (record h { delivered = h.delivered ++ m ∷ [] })
          (on_write none (record s { writes = rest }))
  write_failed :
      {h : History} {s : Session} (m : Str) (rest : List Str) (ec : ErrorCode)
      → Run h s
      → s.writes ≡ m ∷ rest
      → Run h (on_write (some ec) (record s { writes = rest }))
