-- ===== src/Tests/Main.antt =====
-- The whole program, on a port that is taken and on one that is free.
use ccfolio.Common.{
  ◌≤◌, ◌≡◌, refl, ◌⊎◌, inl, inr, ◌++◌, [], ◌∷◌, false, Option, none, some, length, All,
}
use ccfolio.Common.Text.{Str, text}
use ccfolio.Common.Effect.{ok}
use ccfolio.External.World.{World}
use ccfolio.External.Asio.{ErrorCode, Kind}
use ccfolio.App.Main.{
  Config, Platform, Program, returned, joining, atoi, to_unsigned_short, print_port, start_program,
  on_signal, on_connection, thread_ends, main_leaves,
}
use ccfolio.App.Main
use ccfolio.App.Main.Runs.{Step, Steps, here, and_then, connected, refused, signalled, thread_ended}
use ccfolio.App.Main.Start.{launched}
use ccfolio.Network.Listener
use ccfolio.Utility
use ccfolio.App.Main.Joined.{Ended, main_returns}
use ccfolio.App.Main.Deaf.{Steps-deaf}
use ccfolio.Tests.Libraries.{libraries}
use ccfolio.Tests.Database.{Table, odb}
use ccfolio.Tests.Scenario.{table, at_time}

abbrev in_use : ErrorCode
in_use = record { kind = Kind.other; message = text "Address already in use" }

abbrev on_port : Option ErrorCode → Platform Table
on_port bind = record {
  Address = Str;
  database = λ user password name host port. ok (table [] false);
  make_address = λ s. ok s;
  print_address = λ s. s;
  open_ec = none;
  option_ec = none;
  bind_ec = bind;
  listen_ec = none;
}

abbrev config : Config
config = record {
  pg_user = text "u";
  pg_password = text "p";
  pg_database = text "d";
  pg_host = text "h";
  doc_root = text "/";
  server_address = text "::1";
  server_port = text " 65544";
}

-- The port wraps around.
port_wraps : print_port (to_unsigned_short (atoi config.server_port)) ≡ text "8"
unfolding print_port Main.digits to_unsigned_short atoi Main.signed_decimal Main.read_decimal
    Utility.take_sign Utility.skip_spaces Utility.is_space text
port_wraps = refl

abbrev w : World Table
w = at_time (table [] false) 1000

abbrev started : Option ErrorCode → Program Table
started bind = launched libraries odb (on_port bind) config w (text "::1")

starts :
    (bind : Option ErrorCode)
    → start_program libraries odb (on_port bind) config w ≡ ok (started bind)
unfolding start_program Main.with_database Main.with_address
starts bind = refl

still_running : (bind : Option ErrorCode) → (started bind).stopped ≡ false
unfolding Main.launch
still_running bind = refl

-- The port is taken: the accept that was started all the same fails.
abbrev taken : Program Table
taken = on_connection (inl in_use) (started (some in_use))

Steps-deaf_example :
    (taken.listener.listening ≡ false)
    × (taken.listener.sessions ≡ [])
    × (taken.world ≡ (started (some in_use)).world)
    × ((address : Str) × (ok config.server_address ≡ ok address)
        × (taken.output
            ≡ text "Server listening on "
              ++ address
              ++ text ":"
              ++ print_port (to_unsigned_short (atoi config.server_port))
              ++ b'\n' ∷ []))
Steps-deaf_example =
    Steps-deaf libraries odb (on_port (some in_use)) config w (started (some in_use)) taken 1
      (starts (some in_use)) (λ e. let bound = e.2 in cc)
      (and_then here (refused in_use (still_running (some in_use))))

-- The port is free: a connection, a signal, and the end of one thread.
abbrev free : Program Table
free = started none

abbrev served : Program Table
served = on_connection (inr 7) free

abbrev signal : Program Table
signal = on_signal served

abbrev one_ended : Program Table
one_ended = thread_ends 0 signal

until_signal : Steps free 2 signal
unfolding Main.launch Listener.listener Listener.run on_connection
until_signal = and_then (and_then here (connected 7 refl refl)) (signalled refl refl)

after_signal : Steps signal 1 one_ended
unfolding on_signal on_connection Main.launch Main.worker_threads Main.thread_at
after_signal = and_then here (thread_ended 0 refl refl)

main_returns_example :
    (length one_ended.threads ≡ 3)
    × (1 ≤ 8)
    × (((one_ended.thread_of_main ≡ returned) × All Ended one_ended.threads)
        ⊎ ((r : Program Table) × Step one_ended r))
unfolding on_signal
main_returns_example =
    main_returns libraries odb (on_port none) config w free signal one_ended 2 1 (starts none)
      until_signal refl after_signal
