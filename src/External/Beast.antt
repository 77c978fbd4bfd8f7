-- ===== src/External/Beast.antt =====
-- Boost.Beast: what the sessions ask of a message.
use ccfolio.Common.{Bool}
use ccfolio.Http.{HttpRequest, HttpResponse}

pub record Beast : Type 0 where
  -- `websocket::is_upgrade(req)`
  pub is_upgrade : HttpRequest → Bool
  -- `res.need_eof()`
  pub need_eof : HttpResponse → Bool
