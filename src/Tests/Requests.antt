-- ===== src/Tests/Requests.antt =====
-- The program over the generated code, on a connection in memory.
use ccfolio.Common.{
  ℕ, ◌≡◌, ◌≢◌, refl, sym, ap, subst, ◌∙◌, ◌++◌, [], ◌∷◌, List, arith, true, Option,
}
use ccfolio.Common.Text.{Str, text}
use ccfolio.Common.Effect.{Outcome, ok, throw}
use ccfolio.External.World.{World}
use ccfolio.External.Odb.Laws.{OdbLaws, select}
use ccfolio.Entities.OperationResult.{
  OperationResult, success_result, failure_result, option_default,
}
use ccfolio.Entities.User.{User}
use ccfolio.Http.{HttpRequest}
use ccfolio.App.{serve}
use ccfolio.App.Requests.{Requests, none_yet, served, Requests-grow, Requests-Distinct}
use ccfolio.Repositories.UserRepository.{
  get_user_by_username, something_happened, not_found_message, first_row,
}
use ccfolio.Repositories.UserRepository.Lookup.{user_schema}
use ccfolio.Repositories.UserRepository.Distinct.{Distinct}
use ccfolio.Persistence.Traits.Queried.{query-Runs}
use ccfolio.Persistence.Table.Kept.{Forwards-OdbLaws}
use ccfolio.Tests.Libraries.{libraries}
use ccfolio.Tests.Postgres.{runtime, runtime_laws, new_statements-IsReady}
use ccfolio.Tests.Postgres.Executed.{server, accepts}
use ccfolio.Tests.Postgres.Answers.{conditions, run-query}
use ccfolio.Tests.Postgres.Connected.{
  odb, forwards, load_delayed, connected, Ready, by_name, read_rows, Conn,
}

idle : (c : Conn) → c.statements.delayed ≡ [] → load_delayed c ≡ (ok tt, c)
idle c e = refl

kept : OdbLaws odb user_schema
kept = (Forwards-OdbLaws runtime runtime_laws server conditions load_delayed idle forwards).0

abbrev start : World Ready
start = record {
  db = (connected, new_statements-IsReady);
  now = 1000;
  device = λ k. ok 5;
  reads = 0;
  log = [];
}

abbrev registration : HttpRequest
registration = record {
  method_string = text "POST";
  target = text "/user/create";
  find = λ name. Option.none;
  body = text "ann:pw";
  version = 11;
  keep_alive = true;
}

-- The same registration, twice.
abbrev first : World Ready
first = (serve libraries odb registration start).1.0

abbrev second : World Ready
second = (serve libraries odb registration first).1.0

two_requests : Requests libraries odb start second
two_requests = served registration first (served registration start none_yet refl) refl

start-Distinct : Distinct (kept.rows start.db)
unfolding kept select
start-Distinct =
    subst Distinct
      (sym (
        (Forwards-OdbLaws runtime runtime_laws server conditions load_delayed idle forwards).1
          start.db))
      (refl, tt)

Requests-grow_example : (added : List User) × (kept.rows second.db ≡ kept.rows start.db ++ added)
Requests-grow_example = Requests-grow libraries odb kept start second two_requests

-- The server answers every query.
query_answers :
    (v : Str) (d : Ready) → (odb.query v d).0 ≡ ok (select (accepts (by_name v)) d.0.server.seen)
query_answers v (c, ready) = ap read_rows (
    (query-Runs runtime server c ready.fresh (by_name v)).outcome
    ∙ ap (λ r. r.0) (run-query (by_name v) c.server))

-- The first byte of the message tells the failures apart.
first_byte : Str → ℕ
first_byte [] = 0
first_byte (c ∷ _) = c

blamed : Outcome (OperationResult (Option User)) → ℕ
blamed (ok r) = first_byte r.error_message
blamed (throw x) = 0

no_blame :
    (n : ℕ)
    → n ≢ 83
    → (o : Outcome (OperationResult (Option User))) → blamed o ≡ n
    → o ≢ ok (failure_result something_happened)
unfolding blamed first_byte failure_result text
no_blame n other o b e = other (sym b ∙ ap blamed e)

missing_byte :
    (v : Str) (w : World Ready)
    → (odb.query v (odb.begin w.db).1).0 ≡ ok []
    → blamed (get_user_by_username odb v w).0 ≡ 70
unfolding get_user_by_username first_row failure_result not_found_message text blamed first_byte
missing_byte v w q = rw q

found_byte :
    (v : Str) (w : World Ready) (user : User) (l : List User)
    → (odb.query v (odb.begin w.db).1).0 ≡ ok (user ∷ l)
    → blamed (get_user_by_username odb v w).0 ≡ 0
unfolding get_user_by_username first_row success_result blamed first_byte
found_byte v w user l q = rw q

looked :
    (v : Str) (w : World Ready) (l : List User)
    → (odb.query v (odb.begin w.db).1).0 ≡ ok l
    → (get_user_by_username odb v w).0 ≢ ok (failure_result something_happened)
looked v w [] q = no_blame 70 (λ e. absurd (omega arith)) _ (missing_byte v w q)
looked v w (user ∷ l) q = no_blame 0 (λ e. absurd (omega arith)) _ (found_byte v w user l q)

answered :
    (v : Str) (w : World Ready)
    → (get_user_by_username odb v w).0 ≢ ok (failure_result something_happened)
answered v w = looked v w _ (query_answers v (odb.begin w.db).1)

Requests-Distinct_example : Distinct (kept.rows second.db)
Requests-Distinct_example =
    Requests-Distinct libraries odb kept answered start second start-Distinct two_requests
