-- ===== src/External/World.antt =====
-- What a request reads and writes outside its own variables: the database, the clock, the random
-- device and the log.
use ccfolio.Common.{ℕ, suc, List, [], ◌∷◌, ◌++◌}
use ccfolio.Common.Text.{Str}
use ccfolio.Common.Effect.{Exception, what, Outcome, ok, M}
use ccfolio.Logging.{LogLevel, error}

pub record Entry : Type 0 where
  pub level : LogLevel
  pub message : Str

-- `device k` is the outcome of the k-th read of `std::random_device`, which may throw. `now` is in
-- milliseconds.
pub record World (D : Type 0) : Type 0 where
  pub db : D
  pub now : ℕ
  pub device : ℕ → Outcome ℕ
  pub reads : ℕ
  pub log : List Entry

-- The macro `LOG(level, message)`, which hands the message to the log service, on a text that prints
-- as JSON: one of the program or of a library. Logging.Macro has it for a client's text.
abbrev pub log : {D : Type 0} → LogLevel → Str → M (World D) (Unit {0})
log level message w =
    (ok tt, record w { log = w.log ++ record { level = level; message = message } ∷ [] })

-- `LOG(LogService::LogLevel::ERROR, e.what())`
abbrev pub log_error : {D : Type 0} → Exception → M (World D) (Unit {0})
log_error e = log error (what e)

-- `std::chrono::system_clock::now()`
abbrev pub clock : {D : Type 0} → M (World D) ℕ
clock w = (ok w.now, w)

-- `rd()`
abbrev pub read_device : {D : Type 0} → M (World D) ℕ
read_device w = (w.device w.reads, record w { reads = suc w.reads })

-- A call into the database.
abbrev pub store_db : {D A : Type 0} → World D → Outcome A × D → Outcome A × World D
store_db w (o, d) = (o, record w { db = d })

abbrev pub on_db : {D A : Type 0} → (D → Outcome A × D) → M (World D) A
on_db f w = store_db w (f w.db)
