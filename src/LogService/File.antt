-- ===== src/LogService/File.antt =====
-- src/Utility/LogService.cc and AppConfiguration.h: the one log service, and the file that it writes.
pub mod Single
use ccfolio.Common.{
  ℕ, ◌≡◌, ◌⊎◌, List, [], ◌∷◌, ◌++◌, Bool, true, false, ◌||◌, ◌==◌, not, if◌then◌else◌, Option, none,
  some,
}
use ccfolio.Common.Text.{Str, text}
use ccfolio.Common.Effect.{Exception, logic_error, M, pure, raise, ◌>>=◌, ◌>>◌, Outcome, ok, throw}
use ccfolio.External.Files.{Files}
use ccfolio.Logging.{LogLevel}
use ccfolio.LogService
use ccfolio.LogService.{LogService, log_service}

-- `std::filesystem::path` on POSIX: whether it starts at the root, and whether it ends in a name.
unfoldable pub is_absolute : Str → Bool
is_absolute [] = false
is_absolute (c ∷ path) = c == b'/'

unfoldable pub has_filename : Str → Bool
has_filename [] = false
has_filename (c ∷ []) = not (c == b'/')
has_filename (c ∷ d ∷ path) = has_filename (d ∷ path)

-- `left / right`
unfoldable pub join_path : Str → Str → Str
unfolding is_absolute has_filename
join_path left right =
    if is_absolute right
    then right
    else if has_filename left
    then left ++ text "/" ++ right
    else left ++ right

-- A service that has been constructed: the queue and its worker, the path of the file if it is open,
-- and the date that the file is named after.
pub record Instance : Type 0 where
  pub service : LogService
  pub log_file : Option Str
  pub current_log_date : Str

-- What the service shares with the rest of the process; `cerr` has the lines printed there.
pub record Process (F : Type 0) : Type 0 where
  pub files : F
  pub now : ℕ
  pub cerr : List Str
  pub instance : Option Instance

module _ {F : Type 0} (lib : Files F) (project_name : Str) where
  open lib use {create_directories, open_append, close, home, local_date}

  abbrev pub on_files : {A : Type 0} → Process F → Outcome A × F → Outcome A × Process F
  on_files p (o, f) = (o, record p { files = f })

  -- `getCurrentDate`
  unfoldable pub get_current_date : M (Process F) Str
  get_current_date p = (ok (local_date p.now), p)

  -- `fmt::format("{0}/logs", project_name)` below the home directory. A path made of a null pointer is
  -- undefined in C++.
  unfoldable pub app_data_path_at : Option Str → M (Process F) Str
  app_data_path_at none = raise (logic_error (text "null pointer"))
  app_data_path_at (some home_path) =
      let path = join_path home_path (project_name ++ text "/logs") in
      (λ p. on_files p (create_directories path p.files)) >>= λ _. pure path

  unfoldable pub get_app_data_path : M (Process F) Str
  get_app_data_path = app_data_path_at home

  unfoldable pub log_file_name : Str → Str
  log_file_name date = text "/" ++ date ++ text "-application.log"

  -- `if (logFile.is_open()) logFile.close();`
  unfoldable pub close_log_file : Option Str → M (Process F) (Unit {0})
  close_log_file none = pure tt
  close_log_file (some path) = λ p. (ok tt, record p { files = close path p.files })

  -- `logFile.open(…)`, and the line on the error stream
  unfoldable pub open_at : Str → M (Process F) (Option Str)
  open_at path p =
      let opened = open_append path p.files in
      if opened.0 then (ok (some path), record p { files = opened.1 }) else (
        ok none,
        record p {
          files = opened.1;
          cerr = p.cerr ++ (text "Failed to open log file: " ++ path) ∷ [];
        },
      )

  -- `openLogFile`, over the file that is open before and the date
  unfoldable pub open_log_file : Option Str → Str → M (Process F) (Option Str)
  open_log_file log_file date = do
    close_log_file log_file
    path ← get_app_data_path
    open_at (path ++ log_file_name date)

  abbrev pub is_open : Option Str → Bool
  is_open none = false
  is_open (some path) = true

  -- the constructor
  unfoldable pub construct : M (Process F) Instance
  construct = do
    date ← get_current_date
    log_file ← open_log_file none date
    pure (record {
      service = log_service (is_open log_file);
      log_file = log_file;
      current_log_date = date;
    })

  abbrev pub keep : Instance → M (Process F) Instance
  keep made p = (ok made, record p { instance = some made })

  unfoldable pub instance_or : Option Instance → M (Process F) Instance
  instance_or none = construct >>= keep
  instance_or (some made) = pure made

  -- `getInstance`, whose mutex lets one thread in at a time.
  unfoldable pub get_instance : M (Process F) Instance
  unfolding instance_or
  get_instance p = instance_or p.instance p

  abbrev store_service : Instance → Outcome (Unit {0}) × LogService → M (Process F) (Unit {0})
  store_service made (o, service) p =
      (o, record p { instance = some (record made { service = service }) })

  -- The macro `LOG`: `LogService::getInstance().log(…)`.
  unfoldable pub log_macro : (Str → Str → Str ⊎ Str) → LogLevel → Str → M (Process F) (Unit {0})
  unfolding get_instance
  log_macro dump level message = do
    made ← get_instance
    store_service made (LogService.log dump level message made.service)

  -- What can come later: calls of `LOG`, work of the thread, which sees the service alone, and the
  -- passing of time.
  pub data Later (p : Process F) : Process F → Type 0 where
    now_only : Later p p
    logged :
        {q : Process F} (dump : Str → Str → Str ⊎ Str) (level : LogLevel) (message : Str)
        → Later p q
        → Later p (log_macro dump level message q).1
    worked :
        {q : Process F} (made : Instance) (service : LogService)
        → Later p q
        → q.instance ≡ some made
        → Later p (record q { instance = some (record made { service = service }) })
    elapsed : {q : Process F} (t : ℕ) → Later p q → Later p (record q { now = t })

  -- the end of the destructor, after the join
  unfoldable pub destroy : Instance → M (Process F) (Unit {0})
  unfolding close_log_file
  destroy made = close_log_file made.log_file
