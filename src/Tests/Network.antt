-- ===== src/Tests/Network.antt =====
-- The sessions, the shared state, the listener and the log service, on short runs.
use ccfolio.Common.{
  ℕ, ◌+◌, ◌*◌, ◌≡◌, ◌≢◌, refl, ◌⊎◌, inl, inr, List, [], ◌∷◌, ◌++◌, true, false, none, some, ◌&&◌,
  ◌||◌, not, ◌==◌, if◌then◌else◌, length,
}
use ccfolio.Common.Text.{text}
use ccfolio.Common.Effect.{ok}
use ccfolio.Logging.{info}
use ccfolio.External.Asio.{ErrorCode, other}
use ccfolio.External.Beast.{Beast}
use ccfolio.Http.{HttpRequest, HttpResponse, empty_response}
use ccfolio.App
use ccfolio.App.{http_router}
use ccfolio.Router
use ccfolio.Network.WebSocketSession
use ccfolio.Network.WebSocketSession.{Session, new_session}
use ccfolio.Network.WebSocketSession.Order.{Ordered, Run-Ordered}
use ccfolio.Network.WebSocketSession.Stuck
use ccfolio.Network.WebSocketSession.Stuck.{IsStuck, Event, handle_all, on_write_failed-IsStuck}
use ccfolio.Network.SharedState
use ccfolio.Network.SharedState.{SharedState, contains}
use ccfolio.Network.SharedState.Broadcast.{IsOnce, send_lem}
use ccfolio.Network.HttpSession
use ccfolio.Network.HttpSession.{Connection, http_session, Talk}
use ccfolio.Network.HttpSession.Turns.{on_read_returns}
use ccfolio.Network.HttpSession.Answers.{Answers, Pending, Run-Answers}
use ccfolio.Network.Room
use ccfolio.Network.Room.Members.{Listed, broadcast-Run}
use ccfolio.Network.Listener
use ccfolio.Network.Listener.{Listener, listener, events}
use ccfolio.Network.Listener.Accepting.{until_error, events-run}
use ccfolio.Logging.Macro.{Unprinted}
use ccfolio.LogService
use ccfolio.LogService.{
  LogService, log_service, Worker, falling_asleep, finished, testing, work, stop, notify_due,
  work_times,
}
use ccfolio.LogService.Order.{all_of, Run-Kept}
use ccfolio.LogService.Shutdown.{stop_finishes, stop_sleeps}
use ccfolio.Tests.Libraries.{libraries}
use ccfolio.Tests.Database.{Table, odb}
use ccfolio.Tests.Scenario.{start}

abbrev broken_pipe : ErrorCode
broken_pipe = record { kind = other; message = text "Broken pipe" }

-- A session that was sent "a" and has started to write it.
abbrev writing_a : Session
writing_a =
    WebSocketSession.on_send (text "a")
      (record (WebSocketSession.send (text "a") (WebSocketSession.run new_session)) { posted = [] })

Run-Ordered_example : Ordered (record { sent = text "a" ∷ []; delivered = [] }) writing_a
unfolding WebSocketSession.send WebSocketSession.run
Run-Ordered_example =
    Run-Ordered (record { sent = text "a" ∷ []; delivered = [] }) writing_a
      (WebSocketSession.sent_handler (text "a") []
        (WebSocketSession.sends (text "a") WebSocketSession.start) refl)

abbrev failed_write : Session
failed_write = record new_session { queue = text "a" ∷ [] }

waiting : failed_write.queue ≢ []
waiting e = cc

on_write_failed-IsStuck_example : IsStuck (
    handle_all
      (Stuck.sent (text "b") ∷ Stuck.handler (text "b") [] ∷ [])
      (WebSocketSession.on_write (some broken_pipe) failed_write))
on_write_failed-IsStuck_example =
    on_write_failed-IsStuck broken_pipe failed_write
      (Stuck.sent (text "b") ∷ Stuck.handler (text "b") [] ∷ []) refl waiting

abbrev shared : SharedState
shared = record { doc_root = text "/"; sessions = 1 ∷ 2 ∷ [] }

abbrev sessions : ℕ → Session
sessions p = new_session

shared-IsOnce : IsOnce shared.sessions
unfolding contains
shared-IsOnce = (refl, (refl, tt))

send_lem_example :
    IsOnce (SharedState.join 3 shared).sessions
    × IsOnce (SharedState.leave 3 shared).sessions
    × (contains (SharedState.join 3 shared).sessions 2 ≡ (contains shared.sessions 2 || (3 == 2)))
    × (contains (SharedState.leave 3 shared).sessions 2
        ≡ (contains shared.sessions 2 && not (3 == 2)))
    × (SharedState.send (λ p. true) (text "hi") shared sessions 2 ≡ (
        if contains shared.sessions 2 && true
        then WebSocketSession.send (text "hi") new_session
        else new_session))
send_lem_example = send_lem (λ p. true) (text "hi") shared 3 2 sessions shared-IsOnce

-- A session that has joined, and whose last owner has gone.
abbrev leaving : Room.Room
leaving = Room.release 5 (Room.accept 5 none (Room.open_session 5 (Room.empty_room (text "/"))))

leaving-Run : Room.Run leaving
unfolding Room.open_session Room.accept Room.empty_room
leaving-Run =
    Room.released 5 (Room.accepted 5 none (Room.opened 5 (Room.start (text "/")) refl) refl) refl

broadcast-Run_example :
    Listed leaving
    × ((Room.broadcast (text "hi") leaving).store 5 ≡ (
        if Room.is_live (leaving.life 5) && (leaving.store 5).joined
        then WebSocketSession.send (text "hi") (leaving.store 5)
        else leaving.store 5))
broadcast-Run_example = broadcast-Run leaving (text "hi") 5 leaving-Run

abbrev beast : Beast
beast = record { is_upgrade = λ req. false; need_eof = λ res. false }

abbrev connected : Connection Table
connected = (HttpSession.run (start, http_session)).1

abbrev get_root : HttpRequest
get_root = record {
  method_string = text "GET";
  target = text "/";
  find = λ name. none;
  body = [];
  version = 11;
  keep_alive = true;
}

-- A request without a route, after its response was written.
abbrev answering : Connection Table
answering =
    (HttpSession.on_read beast [] (inr get_root)
      (start, record (HttpSession.run (start, http_session)).1.1 { operations = [] })).1

abbrev the_answer : HttpResponse
the_answer = (App.handle_request [] get_root (start, empty_response)).1.1

abbrev again : Connection Table
again = (HttpSession.on_write none false (answering.0, record answering.1 { operations = [] })).1

abbrev talk : Talk
talk = record { asked = get_root ∷ []; answered = the_answer ∷ [] }

again-Run : HttpSession.Run beast [] talk again
unfolding HttpSession.run HttpSession.on_read App.not_found App.handle_request Router.handle_request
    Router.find Router.call
again-Run =
    HttpSession.written [] the_answer
      (HttpSession.requested [] get_root (HttpSession.start start) refl refl refl) refl

Run-Answers_example :
    (pending : List HttpResponse) × Answers {D = Table} beast [] talk.asked
      (talk.answered ++ pending)
    × Pending again.1.operations pending
Run-Answers_example = Run-Answers beast [] talk again again-Run

on_read_returns_example :
    let r = (HttpSession.on_read beast (http_router libraries odb) (inr get_root) connected).0 in
    (r ≡ ok tt) ⊎ Unprinted libraries.json r
on_read_returns_example = on_read_returns libraries odb beast (inr get_root) connected

abbrev arrivals : List (ErrorCode ⊎ ℕ)
arrivals = inr 7 ∷ inl broken_pipe ∷ inr 8 ∷ []

events-run_example :
    (events arrivals (Listener.run Listener.new_listener)).sessions ≡ [] ++ until_error arrivals
events-run_example = events-run Listener.new_listener arrivals refl

-- One entry, which the thread has written before it ends.
abbrev logged_one : LogService
logged_one = (LogService.log (λ level message. inr message) info (text "x") (log_service true)).1

passed : LogService.Run true (text "x" ∷ []) logged_one
unfolding log_service LogService.is_filtered LogService.severity LogService.holds_mutex
    LogService.add_printed
passed = LogService.logged (λ level message. inr message) info (text "x") LogService.start refl

Run-Kept_example :
    (all_of logged_one.worker logged_one ≡ text "x" ∷ []) × (logged_one.file_is_open ≡ true)
Run-Kept_example = Run-Kept (text "x" ∷ []) logged_one passed

logged_computed : Unit {0}
unfolding log_service LogService.log LogService.is_filtered LogService.severity stop work
    LogService.process LogService.pop LogService.is_empty LogService.push
logged_computed = tt

logged_awake : logged_one.worker ≢ falling_asleep
unfolding logged_computed
logged_awake e = cc

stop_finishes_example :
    (work_times
      (2 * length logged_one.message_queue + 4)
      (notify_due (stop logged_one).notifies (stop logged_one))).worker
    ≡ finished
stop_finishes_example = stop_finishes logged_one logged_awake

-- Two steps of the thread with nothing to write.
abbrev dozing : LogService
dozing = work (work (log_service true))

dozing_falls : dozing.worker ≡ falling_asleep
unfolding logged_computed
dozing_falls = refl

dozing-Run : LogService.Run true [] dozing
dozing-Run = LogService.worked (LogService.worked LogService.start)

dozing_alone : dozing.notifies ≡ 0
unfolding logged_computed
dozing_alone = refl

stop_sleeps_example :
    (t : LogService) × LogService.Run true [] t
    × (t ≡ work_times 5 (notify_due (stop dozing).notifies (stop dozing)))
    × (t.worker ≡ LogService.asleep)
    × (t.running ≡ false)
    × (t.notifies ≡ 0)
stop_sleeps_example = stop_sleeps true [] dozing 4 dozing-Run dozing_falls dozing_alone
