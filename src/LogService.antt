-- ===== src/LogService.antt =====
-- src/Utility/LogService.cc: the queue of entries, the thread that writes them, and the destructor.
pub mod Order
pub mod Shutdown
pub mod File
use ccfolio.Common.{
  ℕ, zero, suc, ◌≡◌, ◌⊎◌, inl, inr, List, [], ◌∷◌, ◌++◌, Bool, true, false, ◌||◌, not,
  if◌then◌else◌, ltb,
}
use ccfolio.Common.Text.{Str, text}
use ccfolio.Common.Effect.{json_error, Outcome, ok, throw, M}
use ccfolio.Logging.{LogLevel, debug, info, warn, error}

-- The order of the enumeration.
unfoldable pub severity : LogLevel → ℕ
severity debug = 0
severity info = 1
severity warn = 2
severity error = 3

unfoldable pub log_level_to_string : LogLevel → Str
log_level_to_string debug = text "DEBUG"
log_level_to_string info = text "INFO"
log_level_to_string warn = text "WARN"
log_level_to_string error = text "ERROR"

-- Where the thread of `processMessages` stands: at the test of the outer loop; with the mutex locked,
-- before it tests what it waits for; after that test has failed and before it sleeps; asleep in the
-- condition variable; at the test of the inner loop; writing a message, with the mutex unlocked; done.
pub data Worker : Type 0 where
  testing locked falling_asleep asleep draining : Worker
  writing : Str → Worker
  finished : Worker

-- `notifies` counts the calls of `notify_one` that are due: they are made after the mutex is unlocked.
pub record LogService : Type 0 where
  pub current_level : LogLevel
  pub running : Bool
  pub file_is_open : Bool
  pub message_queue : List Str
  pub log_file : List Str
  pub notifies : ℕ
  pub worker : Worker

-- The constructor, where `openLogFile` opens the file or prints that it cannot.
unfoldable pub log_service : Bool → LogService
log_service opened = record {
  current_level = debug;
  running = true;
  file_is_open = opened;
  message_queue = [];
  log_file = [];
  notifies = 0;
  worker = testing;
}

unfoldable pub set_level : LogLevel → LogService → LogService
set_level level s = record s { current_level = level }

-- `level < currentLevel`
unfoldable pub is_filtered : LogLevel → LogService → Bool
unfolding severity
is_filtered level s = ltb (severity level) (severity s.current_level)

-- `dump` gives the text of `logJson.dump(4)` for the name of the level and the message, with the time
-- and the place of the call in it. Where the message is not UTF-8 it throws, and `inl` has the text
-- of the exception.
abbrev pub log_entry : (Str → Str → Str ⊎ Str) → LogLevel → Str → Str ⊎ Str
log_entry dump level message = dump (log_level_to_string level) message

unfoldable pub push : Str ⊎ Str → M LogService (Unit {0})
push (inl m) s = (throw (json_error m), s)
push (inr entry) s =
    (ok tt, record s { message_queue = s.message_queue ++ entry ∷ []; notifies = suc s.notifies })

unfoldable pub log : (Str → Str → Str ⊎ Str) → LogLevel → Str → M LogService (Unit {0})
unfolding push
log dump level message s =
    if is_filtered level s then (ok tt, s) else push (log_entry dump level message) s

unfoldable pub wake : Worker → Worker
wake asleep = locked
wake testing = testing
wake locked = locked
wake falling_asleep = falling_asleep
wake draining = draining
wake (writing message) = writing message
wake finished = finished

-- `condition.notify_one()`
unfoldable pub notify_one : LogService → LogService
unfolding wake
notify_one s = record s { worker = wake s.worker }

-- A notification that is due is made.
unfoldable pub notify_due : ℕ → LogService → LogService
unfolding notify_one
notify_due zero s = s
notify_due (suc n) s = notify_one (record s { notifies = n })

-- The destructor, up to the join: `running = false; condition.notify_one();`, the second being due.
unfoldable pub stop : LogService → LogService
stop s = record s { running = false; notifies = suc s.notifies }

unfoldable pub is_empty {ℓ} : {A : Type ℓ} → List A → Bool
is_empty [] = true
is_empty (x ∷ l) = false

-- `while (!messageQueue.empty())`: take one message, or unlock and go back to the outer loop.
unfoldable pub pop : List Str → LogService → LogService
pop [] s = record s { worker = testing }
pop (message ∷ rest) s = record s { message_queue = rest; worker = writing message }

-- One step of `processMessages`.
unfoldable pub process : Worker → LogService → LogService
unfolding pop is_empty
process testing s =
    if s.running || not (is_empty s.message_queue)
    then record s { worker = locked }
    else record s { worker = finished }
process locked s =
    if not s.running || not (is_empty s.message_queue)
    then record s { worker = draining }
    else record s { worker = falling_asleep }
process falling_asleep s = record s { worker = asleep }
process asleep s = s
process draining s = pop s.message_queue s
process (writing message) s =
    if s.file_is_open
    then record s { log_file = s.log_file ++ message ∷ []; worker = draining }
    else record s { worker = draining }
process finished s = s

unfoldable pub work : LogService → LogService
unfolding process
work s = process s.worker s

unfoldable pub work_times : ℕ → LogService → LogService
unfolding work
work_times zero s = s
work_times (suc n) s = work_times n (work s)

-- Whether the thread holds the mutex, so that a caller of `log` waits.
unfoldable pub holds_mutex : Worker → Bool
holds_mutex locked = true
holds_mutex falling_asleep = true
holds_mutex draining = true
holds_mutex _ = false

-- What a call adds to the entries that were let through.
unfoldable pub add_printed : Str ⊎ Str → List Str → List Str
add_printed (inl m) entries = entries
add_printed (inr entry) entries = entries ++ entry ∷ []

-- The runs: calls of the members, notifications that are due, and steps of the thread, in any order.
-- The index lists the entries that were let through.
pub data Run (opened : Bool) : List Str → LogService → Type 0 where
  start : Run opened [] (log_service opened)
  logged :
      {entries : List Str} {s : LogService} (dump : Str → Str → Str ⊎ Str) (level : LogLevel)
      (message : Str)
      → Run opened entries s
      → holds_mutex s.worker ≡ false
      → Run opened
          (if is_filtered level s
            then entries
            else add_printed (log_entry dump level message) entries)
          (log dump level message s).1
  level_set :
      {entries : List Str} {s : LogService} (level : LogLevel)
      → Run opened entries s
      → Run opened entries (set_level level s)
  stopped :
      {entries : List Str} {s : LogService} → Run opened entries s → Run opened entries (stop s)
  notified :
      {entries : List Str} {s : LogService} (n : ℕ)
      → Run opened entries s
      → s.notifies ≡ suc n
      → Run opened entries (notify_due s.notifies s)
  worked :
      {entries : List Str} {s : LogService} → Run opened entries s → Run opened entries (work s)
