-- ===== src/External/Asio.antt =====
-- Boost.Asio and Boost.Beast: the error codes that the handlers of src/Network tell apart.
use ccfolio.Common.{Bool, true, false, ◌++◌}
use ccfolio.Common.Text.{Str, text}

pub data Kind : Type 0 where
  operation_aborted closed end_of_stream other : Kind

-- A code that tests as true. A handler is given `none` where the operation went well.
pub record ErrorCode : Type 0 where
  pub kind : Kind
  pub message : Str

-- `ec == net::error::operation_aborted`
unfoldable pub is_aborted : Kind → Bool
is_aborted operation_aborted = true
is_aborted _ = false

-- `ec == websocket::error::closed`
unfoldable pub is_closed : Kind → Bool
is_closed closed = true
is_closed _ = false

-- `ec == http::error::end_of_stream`
unfoldable pub is_end_of_stream : Kind → Bool
is_end_of_stream end_of_stream = true
is_end_of_stream _ = false

-- `fmt::format("{0}: {1}", what, ec.message())`
unfoldable pub error_line : ErrorCode → Str → Str
error_line ec what = what ++ text ": " ++ ec.message
