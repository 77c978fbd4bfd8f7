-- ===== src/App/Main.antt =====
-- app/main.cc: `main` as a whole, with its threads, from the start to the return.
pub mod Runs
pub mod Start
pub mod Joined
pub mod Shutdown
pub mod Deaf
use ccfolio.Common.{
  ℕ, zero, suc, ◌+◌, ◌-◌, ◌*◌, ◌/◌, ◌%◌, ◌≡◌, ◌≢◌, ◌⊎◌, inl, inr, List, [], ◌∷◌, ◌++◌, Bool, true,
  false, ◌&&◌, Option, none, some, ltb, leb, if◌then◌else◌, replicate,
}
use ccfolio.Common.Text.{Str, text}
use ccfolio.Common.Effect.{Outcome, ok, throw}
use ccfolio.External.World.{World}
use ccfolio.External.Odb.{Odb}
use ccfolio.External.Asio.{ErrorCode}
use ccfolio.Entities.User.{User}
use ccfolio.Http.{HttpRequest, empty_response}
use ccfolio.Router.{Routes}
use ccfolio.Service.{Libraries}
use ccfolio.Network.SharedState.{SharedState, shared_state}
use ccfolio.Network.Listener
use ccfolio.Network.Listener.{Listener, listener, event}
use ccfolio.Utility.{skip_spaces, take_sign}
use ccfolio.App.{http_router, handle_request}

-- The texts of config.hpp, which the build makes.
pub record Config : Type 0 where
  pub pg_user : Str
  pub pg_password : Str
  pub pg_database : Str
  pub pg_host : Str
  pub doc_root : Str
  pub server_address : Str
  pub server_port : Str

-- The constructor of ODB's database, Asio's `make_address` and the output of what it makes, and the
-- error codes that the listener's four calls give.
pub record Platform (Db : Type 0) : Type 1 where
  pub Address : Type 0
  pub database : Str → Str → Str → Str → ℕ → Outcome Db
  pub make_address : Str → Outcome Address
  pub print_address : Address → Str
  pub open_ec : Option ErrorCode
  pub option_ec : Option ErrorCode
  pub bind_ec : Option ErrorCode
  pub listen_ec : Option ErrorCode

-- `std::atoi`: the sign (true for `-`) and the number before the first character that is no digit,
-- for texts too short to overflow an `int`.
unfoldable pub read_decimal : ℕ → Str → ℕ
read_decimal acc [] = acc
read_decimal acc (c ∷ s) =
    let rest = read_decimal (acc * 10 + (c - b'0')) s in
    if leb b'0' c && leb c b'9' then rest else acc

unfoldable pub signed_decimal : Bool × Str → Bool × ℕ
signed_decimal (negative, s) = (negative, read_decimal 0 s)

unfoldable pub atoi : Str → Bool × ℕ
unfolding signed_decimal take_sign skip_spaces
atoi s = signed_decimal (take_sign (skip_spaces s))

-- `static_cast<unsigned short>`
unfoldable pub to_unsigned_short : Bool × ℕ → ℕ
to_unsigned_short (true, v) = (65536 - v % 65536) % 65536
to_unsigned_short (false, v) = v % 65536

-- `std::max<int>(1, …)`
unfoldable pub at_least_one : Bool × ℕ → ℕ
at_least_one (true, v) = 1
at_least_one (false, zero) = 1
at_least_one (false, suc v) = suc v

unfoldable pub worker_threads : ℕ
unfolding at_least_one atoi read_decimal text
worker_threads = at_least_one (atoi (text "4"))

-- Output of an `unsigned short`, which has at most five digits.
unfoldable pub digits : ℕ → ℕ → Str
digits zero n = []
digits (suc k) n =
    let rest = digits k (n / 10) in
    if ltb n 10 then (b'0' + n) ∷ [] else rest ++ (b'0' + n % 10) ∷ []

unfoldable pub print_port : ℕ → Str
unfolding digits
print_port n = digits 5 n

-- A thread of the vector `v`.
pub data Thread : Type 0 where
  running ended : Thread

-- Where the thread of `main` is: in `ioContext.run()`, in the loop that joins, with the number of
-- threads it has joined, or past the end.
pub data Main : Type 0 where
  serving : Main
  joining : ℕ → Main
  returned : Main

-- The program after `signals.async_wait`; `stopped` is the state of the io_context.
pub record Program (D : Type 0) : Type 0 where
  pub router : Routes D
  pub shared : SharedState
  pub listener : Listener
  pub world : World D
  pub output : Str
  pub signals_waiting : Bool
  pub stopped : Bool
  pub threads : List Thread
  pub thread_of_main : Main

unfoldable pub thread_at : ℕ → List Thread → Option Thread
thread_at n [] = none
thread_at zero (t ∷ ts) = some t
thread_at (suc n) (t ∷ ts) = thread_at n ts

unfoldable pub end_at : ℕ → List Thread → List Thread
end_at n [] = []
end_at zero (t ∷ ts) = ended ∷ ts
end_at (suc n) (t ∷ ts) = t ∷ end_at n ts

module _ {D : Type 0} where
  -- The handler of `signals.async_wait`, which is run for an error too.
  unfoldable pub on_signal : Program D → Program D
  on_signal p = record p { signals_waiting = false; stopped = true }

  unfoldable pub on_connection : ErrorCode ⊎ ℕ → Program D → Program D
  unfolding event
  on_connection e p = record p { listener = event p.listener.accepts e p.listener }

  -- A request is read by a session of the listener; the router is the one the listener was given.
  unfoldable pub on_request : HttpRequest → World D → Program D → Program D
  unfolding handle_request
  on_request req w p = record p { world = (handle_request p.router req (w, empty_response)).1.0 }

  -- `ioContext.run()` returns in a thread of `v`, and in the thread of `main`.
  unfoldable pub thread_ends : ℕ → Program D → Program D
  unfolding end_at
  thread_ends n p = record p { threads = end_at n p.threads }

  unfoldable pub main_leaves : Program D → Program D
  main_leaves p = record p { thread_of_main = joining 0 }

  -- One round of `for (auto &t : v) t.join()`: `none` is the end of `v`, and the join of a thread
  -- that runs does not return.
  unfoldable pub join : ℕ → Option Thread → Program D → Program D
  join n none p = record p { thread_of_main = returned }
  join n (some ended) p = record p { thread_of_main = joining (suc n) }
  join n (some running) p = p

module _ (lib : Libraries) (odb : Odb User ℕ Str) (platform : Platform odb.Db) where
  open platform use {
    Address, database, make_address, print_address, open_ec, option_ec, bind_ec, listen_ec,
  }

  -- From the router to `ioContext.run()`, all threads started. `w` has the clock, the random device
  -- and the log.
  unfoldable pub launch : Config → World odb.Db → Address → ℕ → Program odb.Db
  unfolding http_router shared_state listener Listener.run print_port worker_threads
  launch config w address port = record {
    router = http_router lib odb;
    shared = shared_state config.doc_root;
    listener = Listener.run (listener open_ec option_ec bind_ec listen_ec);
    world = w;
    output =
        text "Server listening on "
        ++ print_address address
        ++ text ":"
        ++ print_port port
        ++ b'\n' ∷ [];
    signals_waiting = true;
    stopped = false;
    threads = replicate (worker_threads - 1) running;
    thread_of_main = serving;
  }

  unfoldable pub with_address : Config → World odb.Db → Outcome Address → Outcome (Program odb.Db)
  unfolding launch to_unsigned_short atoi
  with_address config w (ok address) =
      ok (launch config w address (to_unsigned_short (atoi config.server_port)))
  with_address config w (throw e) = throw e

  unfoldable pub with_database : Config → World odb.Db → Outcome odb.Db → Outcome (Program odb.Db)
  unfolding with_address
  with_database config w (ok db) =
      with_address config (record w { db = db }) (make_address config.server_address)
  with_database config w (throw e) = throw e

  -- An exception here leaves `main`.
  unfoldable pub start_program : Config → World odb.Db → Outcome (Program odb.Db)
  unfolding with_database
  start_program config w =
      with_database config w
        (database config.pg_user config.pg_password config.pg_database config.pg_host 5432)
