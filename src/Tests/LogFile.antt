-- ===== src/Tests/LogFile.antt =====
-- The log file, on a disk that lists the files that were opened.
use ccfolio.Logging.{info}
use ccfolio.Common.{◌⊎◌, inr, ◌≡◌, refl, List, [], ◌∷◌, true, none, some}
use ccfolio.Common.Text.{Str, text}
use ccfolio.Common.Effect.{ok}
use ccfolio.External.Files.{Files}
use ccfolio.LogService.{log_service}
use ccfolio.LogService.File.{
  Instance, Process, get_instance, instance_or, construct, open_log_file, open_at, close_log_file,
  get_app_data_path, app_data_path_at, join_path, log_file_name, get_current_date, is_open,
  log_macro, now_only, logged, elapsed,
}
use ccfolio.LogService.File.Single.{OpenedAt, log_path, get_instance-stays}

abbrev files : Files (List Str)
files = record {
  create_directories = λ path opened. (ok tt, opened);
  open_append = λ path opened. (true, path ∷ opened);
  close = λ path opened. opened;
  home = some (text "/home/ann");
  local_date = λ now. text "2024-03-28";
}

abbrev starting : Process (List Str)
starting = record { files = []; now = 5; cerr = []; instance = none }

abbrev first : Instance
first = record {
  service = log_service true;
  log_file = some (text "/home/ann/ccfolio/logs/2024-03-28-application.log");
  current_log_date = text "2024-03-28";
}

first_instance : (get_instance files (text "ccfolio") starting).0 ≡ ok first
unfolding get_instance instance_or construct open_log_file open_at close_log_file get_app_data_path
    app_data_path_at join_path log_file_name get_current_date text
first_instance = refl

-- One call of the macro later, on the next day.
abbrev opened : Process (List Str)
opened = (get_instance files (text "ccfolio") starting).1

abbrev print_entry : Str → Str → Str ⊎ Str
print_entry level message = inr message

abbrev next_day : Process (List Str)
next_day = record (log_macro files (text "ccfolio") print_entry info (text "x") opened).1 {
  now = 99;
}

get_instance-stays_example :
    (home_path : Str) × (files.home ≡ some home_path)
    × (first.current_log_date ≡ files.local_date starting.now)
    × OpenedAt files
        (text "ccfolio")
        (log_path files (text "ccfolio") home_path (files.local_date starting.now))
        starting.cerr
        first.log_file
        opened.cerr
    × (first.service ≡ log_service (is_open files (text "ccfolio") first.log_file))
    × ((i : Instance) × (get_instance files (text "ccfolio") next_day ≡ (ok i, next_day))
        × (i.log_file ≡ first.log_file)
        × (i.current_log_date ≡ first.current_log_date))
get_instance-stays_example =
    get_instance-stays files (text "ccfolio") starting next_day first refl first_instance
      (elapsed 99 (logged print_entry info (text "x") now_only))
