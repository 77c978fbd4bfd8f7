-- ===== src/Network/Listener.antt =====
-- src/Network/listener.cc: opening the port, and accepting connections.
pub mod Accepting
use ccfolio.Common.{
  ℕ, zero, suc, ◌≡◌, ◌⊎◌, inl, inr, List, [], ◌∷◌, ◌++◌, Bool, true, false, Option, none, some,
  if◌then◌else◌,
}
use ccfolio.Common.Text.{Str, text}
use ccfolio.External.Asio.{ErrorCode, is_aborted, error_line}

-- How far the acceptor has come, the accepts that are under way, the sockets whose sessions were
-- started, and what was logged.
pub record Listener : Type 0 where
  pub is_open : Bool
  pub reuse_address : Bool
  pub bound : Bool
  pub listening : Bool
  pub accepts : ℕ
  pub sessions : List ℕ
  pub log : List Str

-- `acceptor_(ioc)`
abbrev pub new_listener : Listener
new_listener = record {
  is_open = false;
  reuse_address = false;
  bound = false;
  listening = false;
  accepts = 0;
  sessions = [];
  log = [];
}

unfoldable pub fail : ErrorCode → Str → Listener → Listener
fail ec what l =
    if is_aborted ec.kind then l else record l { log = l.log ++ error_line ec what ∷ [] }

-- `if (ec) { fail(ec, what); return; }`
unfoldable pub check : Option ErrorCode → Str → (Listener → Listener) → Listener → Listener
unfolding fail
check (some ec) what next l = fail ec what l
check none what next l = next l

-- The constructor, over the error codes that the four calls give.
module _ (open_ec option_ec bind_ec listen_ec : Option ErrorCode) where
  unfoldable pub listen_step : Listener → Listener
  unfolding check
  listen_step = check listen_ec (text "listen") λ l. record l { listening = true }

  unfoldable pub bind_step : Listener → Listener
  unfolding check listen_step
  bind_step = check bind_ec (text "bind") λ l. listen_step (record l { bound = true })

  unfoldable pub option_step : Listener → Listener
  unfolding check bind_step
  option_step =
      check option_ec (text "set_option") λ l. bind_step (record l { reuse_address = true })

  unfoldable pub listener : Listener
  unfolding check option_step
  listener =
      check open_ec (text "open") (λ l. option_step (record l { is_open = true })) new_listener

unfoldable pub async_accept : Listener → Listener
async_accept l = record l { accepts = suc l.accepts }

unfoldable pub run : Listener → Listener
unfolding async_accept
run = async_accept

-- `inr` is a connection; a session is made for its socket and run.
unfoldable pub on_accept : ErrorCode ⊎ ℕ → Listener → Listener
unfolding fail async_accept
on_accept (inl ec) l = fail ec (text "accept") l
on_accept (inr socket) l = async_accept (record l { sessions = l.sessions ++ socket ∷ [] })

-- One event for the acceptor. Without an accept under way nothing happens.
unfoldable pub event : ℕ → ErrorCode ⊎ ℕ → Listener → Listener
unfolding on_accept
event zero e l = l
event (suc n) e l = on_accept e (record l { accepts = n })

unfoldable pub events : List (ErrorCode ⊎ ℕ) → Listener → Listener
unfolding event
events [] l = l
events (e ∷ rest) l = events rest (event l.accepts e l)
