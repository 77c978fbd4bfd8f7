-- ===== src/Lib.antt =====
-- ccfolio, a REST and WebSocket server in C++: a model of its request path, its sessions and its log,
-- and what is proved of them. Paths are from the root of the repository.
--
-- How a request runs. `main` (app/main.cc) builds a `Router` with the handlers of two controllers and
-- starts a `Listener`. For each connection a session reads a request, and `handle_request`
-- (src/Network/HttpSession.cc) asks the router for the handler of its method and target. The handlers
-- of `UserController` call `UserService`, which reads JSON, hashes with `PasswordHelper`, stores and
-- looks up users through `UserRepository` over `OdbRepository`, and makes a token with `JWTHelper`. The
-- handler of `TestController` runs behind `AuthenticationMiddleware`. Everything writes to `LogService`.
--
-- Which module models which part:
--   Utility                      src/Utility/Utility.h: toHexString, fromHexString
--   Logging, LogService          src/Utility/LogService.h and LogService.cc, Logging.Macro the macro
--                                LOG as the handlers use it; LogService.File also
--                                src/Utility/AppConfiguration.h
--   Entities, Dtos, Interfaces   app/Entities, app/Dtos, app/Interfaces
--   Security.Password            src/Security/PasswordHelper.cc
--   Security.Token               src/Security/JWTHelper.cc
--   Persistence                  app/Entities/odb: User-odb.cxx, .hxx and .ixx
--   Repositories.OdbRepository   app/Repositories/OdbRepository.h
--   Repositories.UserRepository  app/Repositories/UserRepository.h
--   Service                      app/Services/UserService.h
--   Middleware                   app/Middleware/AuthenticationMiddleware.h
--   Router, Http                 src/Network/Router.h
--   Controllers                  app/Controllers/UserController.h and TestController.h
--   App                          app/main.cc, and handle_request of src/Network/HttpSession.cc;
--                                App.Main is main with its threads and the stop by a signal
--   Network                      src/Network: HttpSession, WebSocketSession, SharedState, listener;
--                                Room is the sessions together with the set of pointers to them
-- Functions keep their names in snake case: `handleCreateUser` is `handle_create_user`. The children of
-- a module hold its proofs. Common has the shared names, texts, tests and the monad; Tests has concrete
-- libraries, a database in memory, and one run of every property that has hypotheses.
--
-- State and errors. A computation `M S A` takes a state and returns an outcome, a value or an exception,
-- with the new state; what was written before an exception stays written, as in C++. The state of the
-- services is a `World`: the database, the time, the random device and the log. A handler has the world
-- and the response that it was given by reference. A session of src/Network is a record that also holds
-- the operations that Asio has under way for it, and its runs are a data type with one constructor for
-- each thing that can happen next. The log's worker thread is a program counter, and its runs
-- interleave it with the callers and the destructor. The program itself is a step relation too: in it a
-- request is one step, and a connection needs an acceptor that listens.
--
-- Libraries are parameters: External has a record of operations for libargon2, jwt-cpp, nlohmann::json,
-- ODB over PostgreSQL and Beast, and the laws that the program relies on (Argon2Laws, JwtLaws, OdbLaws).
-- A law of ODB speaks of the stored rows and of those that the open transaction sees. That a query fails
-- is never excluded by a law.
--
-- The generated code. Persistence has the image of a row, whose buffers have an address and a capacity,
-- the arrays of pointers that the statements are bound to, and the counts by which the code knows that a
-- pointer is stale. A statement that would use a freed buffer ends with an exception of its own. The
-- operations stand beside their description on the server alone, and Persistence.Table is a database that
-- forwards its calls to them. External.Pgsql has the runtime and
-- the server as parameters. An update reads its key through the binding of the key, which the library
-- keeps behind the three parameters of the image. `UserRepository.Race` has two registrations at a time.
--
-- Bounds. A byte is a number below 256, `% 256` where the source casts. `std::stoi` is run on at most
-- two characters, so it cannot overflow. Keys and times are unbounded numbers; times are in
-- milliseconds. Loops are structural recursion; only the steps of the log's worker and those of the
-- stopped program are counted. The port is a number `% 65536`, printed with at most five digits.
--
-- The level of the log is never changed by the program, so that in a `World` every entry is kept.
--
-- The log. A text that a client may have sent, in the service and in the controllers, is logged through
-- Logging.Macro, where printing the entry as JSON can throw. The other texts that a request logs are of
-- the program, of ODB, libargon2, jwt-cpp and Asio; they are taken to be UTF-8, and External.World queues
-- them. In LogService every entry may fail to print.
--
-- Not modelled: the file, the line and the time stamp of a log entry; that the first call of the log
-- throws while a request runs, where the directory of its file cannot be made; that time passes within
-- one request; requests that run at the same time, beyond the interleavings above; spurious wake-ups;
-- the build files.
pub mod Common
pub mod Utility
pub mod Logging
pub mod External
pub mod Entities
pub mod Dtos
pub mod Http
pub mod Security
pub mod Interfaces
pub mod Repositories
pub mod Service
pub mod Router
pub mod Middleware
pub mod Controllers
pub mod App
pub mod Persistence
pub mod Network
pub mod LogService
pub mod Tests
