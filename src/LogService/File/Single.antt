-- ===== src/LogService/File/Single.antt =====
-- src/Utility/LogService.cc: there is one log service, and it writes to one file.
use ccfolio.Common.{
  ◌≡◌, refl, sym, ap, ◌∙◌, ◌⊎◌, inl, inr, List, [], ◌∷◌, ◌++◌, Bool-cases, Option, none, some,
  subst, some_inj,
}
use ccfolio.Common.Text.{Str, text}
use ccfolio.Common.Effect.{ok, throw, Outcome, continue, ◌>>=◌, pure, Outcome-cases}
use ccfolio.Common.Effect.Rules.{ok_inj}
use ccfolio.External.Files.{Files}
use ccfolio.LogService
use ccfolio.LogService.{log_service}
use ccfolio.LogService.File.{
  Instance, Process, join_path, app_data_path_at, get_app_data_path, log_file_name, close_log_file,
  open_at, open_log_file, is_open, construct, keep, instance_or, get_instance, get_current_date,
  log_macro, store_service, Later, now_only, logged, worked, elapsed,
}

module _ {F : Type 0} (lib : Files F) (project_name : Str) where
  open lib use {create_directories, open_append, home, local_date}

  -- The file of a date.
  abbrev pub log_path : Str → Str → Str
  log_path home_path date =
      join_path home_path (project_name ++ text "/logs") ++ log_file_name lib project_name date

  abbrev pub failed_line : Str → Str
  failed_line path = text "Failed to open log file: " ++ path

  -- The file of the date is open, or it could not be opened and a line was printed.
  abbrev pub OpenedAt : Str → List Str → Option Str → List Str → Type 0
  OpenedAt path before file after =
      ((file ≡ some path) × (after ≡ before))
      ⊎ ((file ≡ none) × (after ≡ before ++ failed_line path ∷ []))

  open_at-OpenedAt :
      (path : Str) (p : Process F)
      → (file : Option Str) × ((open_at lib project_name path p).0 ≡ ok file)
        × OpenedAt path p.cerr file (open_at lib project_name path p).1.cerr
  unfolding open_at
  open_at-OpenedAt path p = elim (Bool-cases (open_append path p.files).0) [
    | inl e ↦ rw e (some path, refl, inl (refl, refl))
    | inr e ↦ rw e (none, refl, inr (refl, refl))
  ]

  path_then_open :
      (h : Option Str) (date : Str) (p : Process F) (file : Option Str)
      → let run =
          (app_data_path_at lib project_name h >>= λ path.
          open_at lib project_name (path ++ log_file_name lib project_name date))
            p in
        run.0 ≡ ok file
        → (home_path : Str) × (h ≡ some home_path)
          × OpenedAt (log_path home_path date) p.cerr file run.1.cerr
  unfolding app_data_path_at
  path_then_open none date p file e = cc
  path_then_open (some home_path) date p file e =
      let path = join_path home_path (project_name ++ text "/logs") in
      elim (Outcome-cases (create_directories path p.files).0) [
        | inl (u, f) ↦
            let q : Process F = record p { files = (create_directories path p.files).1 } in
            let full = path ++ log_file_name lib project_name date in
            let (got, run, opened) = open_at-OpenedAt full q in
            let same = ok_inj (sym run ∙ (rw f at e)) in
            (
              home_path,
              refl,
              rw f (
                  subst (λ t. OpenedAt full p.cerr t (open_at lib project_name full q).1.cerr) same
                    opened),
            )
        | inr (x, f) ↦ let bad = rw f at e in cc
      ]

  -- What the constructor leaves.
  record Constructed (p : Process F) (made : Instance) (p' : Process F) : Type 0 where
    pub home_path : Str
    pub home_set : home ≡ some home_path
    pub date : made.current_log_date ≡ local_date p.now
    pub opened : OpenedAt (log_path home_path (local_date p.now)) p.cerr made.log_file p'.cerr
    pub queue : made.service ≡ log_service (is_open lib project_name made.log_file)

  abbrev made_of : Str → Option Str → Instance
  made_of date file = record {
    service = log_service (is_open lib project_name file);
    log_file = file;
    current_log_date = date;
  }

  abbrev opening : Process F → Outcome (Option Str) × Process F
  opening p =
      (app_data_path_at lib project_name home >>= λ path.
      open_at lib project_name (path ++ log_file_name lib project_name (local_date p.now)))
        p

  construct-opening :
      (p : Process F)
      → construct lib project_name p
        ≡ continue (λ file. pure (made_of (local_date p.now) file)) (opening p)
  unfolding construct get_current_date open_log_file close_log_file get_app_data_path
  construct-opening p = refl

  made_from :
      (date : Str) (r : Outcome (Option Str) × Process F) (made : Instance)
      → (continue (λ file. pure (made_of date file)) r).0 ≡ ok made
      → (file : Option Str) × (r.0 ≡ ok file)
        × (made_of date file ≡ made)
        × ((continue (λ file. pure (made_of date file)) r).1 ≡ r.1)
  made_from date (ok file, q) made e = (file, refl, ok_inj e, refl)
  made_from date (throw x, q) made e = cc

  construct-Constructed :
      (p : Process F) (made : Instance)
      → (construct lib project_name p).0 ≡ ok made
      → Constructed p made (construct lib project_name p).1
  construct-Constructed p made e =
      let date = local_date p.now in
      let (file, run, same, end) =
        made_from date (opening p) made (ap (λ r. r.0) (sym (construct-opening p)) ∙ e) in
      let (home_path, set, opened) = path_then_open home date p file run in
      subst (λ q. Constructed p made q) (sym (ap (λ r. r.1) (construct-opening p) ∙ end))
        (subst (λ m. Constructed p m (opening p).1) same
          (record {
            home_path = home_path;
            home_set = set;
            date = refl;
            opened = opened;
            queue = refl;
          }))

  keep_from :
      (r : Outcome Instance × Process F) (made : Instance)
      → (continue (keep lib project_name) r).0 ≡ ok made
      → (r.0 ≡ ok made)
        × ((continue (keep lib project_name) r).1.instance ≡ some made)
        × ((continue (keep lib project_name) r).1.cerr ≡ r.1.cerr)
  keep_from (ok m, q) made e = (e, ap (λ t. some t) (ok_inj e), refl)
  keep_from (throw x, q) made e = cc

  instance_or-keep :
      (i : Option Instance) (p : Process F)
      → i ≡ none
      → instance_or lib project_name i p
        ≡ continue (keep lib project_name) (construct lib project_name p)
  unfolding instance_or
  instance_or-keep none p e = refl
  instance_or-keep (some m) p e = cc

  instance_or-some :
      (i : Option Instance) (m : Instance) (p : Process F)
      → i ≡ some m
      → instance_or lib project_name i p ≡ (ok m, p)
  unfolding instance_or
  instance_or-some none m p e = cc
  instance_or-some (some k) m p e = ap (λ t. (ok t, p)) (some_inj e)

  -- The instance is there, with the file and the date of `made`.
  abbrev pub Stays : Instance → Process F → Type 0
  Stays made q =
      (i : Instance) × (q.instance ≡ some i)
      × (i.log_file ≡ made.log_file)
      × (i.current_log_date ≡ made.current_log_date)

  Later-Stays :
      (p q : Process F) (made : Instance)
      → p.instance ≡ some made
      → Later lib project_name p q
      → Stays made q
  unfolding log_macro get_instance
  Later-Stays p _ made e now_only = (made, e, refl, refl)
  Later-Stays p _ made e (logged {q} dump level message later) =
      let (i, there, file, date) = Later-Stays p q made e later in
      let run = instance_or-some q.instance i q there in
      subst
        (λ r.
          Stays made
            (continue
              (λ k. store_service lib project_name k (LogService.log dump level message k.service))
              r).1)
        (sym run)
        (record i { service = (LogService.log dump level message i.service).1 }, refl, file, date)
  Later-Stays p _ made e (worked {q} there_made service later there) =
      let (i, there', file, date) = Later-Stays p q made e later in
      let same : i ≡ there_made = some_inj (sym there' ∙ there) in
      (
        record there_made { service = service },
        refl,
        ap (λ (k : Instance). k.log_file) (sym same) ∙ file,
        ap (λ (k : Instance). k.current_log_date) (sym same) ∙ date,
      )
  Later-Stays p _ made e (elapsed {q} t later) = Later-Stays p q made e later

  -- Let `getInstance` return where there is no instance yet. Then the home directory is known, and the
  -- service is new, with an empty queue: its file is that of the day of the call, opened below the
  -- home directory, or it could not be opened and a line on the error stream names it. After any calls
  -- of `LOG`, any work of the thread and any time, `getInstance` returns at once, changes nothing, and
  -- gives a service with this file and this date.
  pub get_instance-stays :
      (p q : Process F) (made : Instance)
      → p.instance ≡ none
      → (get_instance lib project_name p).0 ≡ ok made
      → Later lib project_name (get_instance lib project_name p).1 q
      → (home_path : Str) × (home ≡ some home_path)
        × (made.current_log_date ≡ local_date p.now)
        × OpenedAt
            (log_path home_path (local_date p.now))
            p.cerr
            made.log_file
            (get_instance lib project_name p).1.cerr
        × (made.service ≡ log_service (is_open lib project_name made.log_file))
        × ((i : Instance) × (get_instance lib project_name q ≡ (ok i, q))
            × (i.log_file ≡ made.log_file)
            × (i.current_log_date ≡ made.current_log_date))
  unfolding get_instance
  get_instance-stays p q made fresh e later =
      let run = instance_or-keep p.instance p fresh in
      let (built, kept, printed) =
        keep_from (construct lib project_name p) made (ap (λ r. r.0) (sym run) ∙ e) in
      let c = construct-Constructed p made built in
      let (i, there, file, date) = Later-Stays _ q made (ap (λ r. r.1.instance) run ∙ kept) later in
      (
        c.home_path,
        c.home_set,
        c.date,
        subst (OpenedAt (log_path c.home_path (local_date p.now)) p.cerr made.log_file)
            (sym (ap (λ r. r.1.cerr) run ∙ printed)) c.opened,
        c.queue,
        (i, instance_or-some q.instance i q there, file, date),
      )
