-- ===== src/Tests/Generated.antt =====
-- The generated code on a connection in memory, and its theorems applied there.
use ccfolio.Common.{◌≡◌, refl, [], some, none}
use ccfolio.Common.Text.{text}
use ccfolio.Common.Effect.{ok}
use ccfolio.External.Odb.Laws.{OdbLaws}
use ccfolio.Entities.User.{User}
use ccfolio.Repositories.UserRepository.Lookup.{user_schema}
use ccfolio.External.Odb.Laws.{select}
use ccfolio.Common.Text.{str_eq}
use ccfolio.Persistence.Image.{bind, bind_id, init_id, init_object}
use ccfolio.Persistence.Statements.{
  store_id, rebind_id, rebind_select, rebind, id_cells, read_id_cells,
}
use ccfolio.Persistence.Fetch.{fetch_first, fetch, is_truncated, grow_image, refetch}
use ccfolio.Persistence.Traits.{persist, update, find, find_}
use ccfolio.Persistence.Traits.Runs.{Runs, persist_on, update_on}
use ccfolio.Persistence.Traits.Sent.{persist-Runs, update-Runs}
use ccfolio.Persistence.Traits.Found.{find-Runs, find_on}
use ccfolio.Persistence.Table.Kept.{Forwards-OdbLaws}
use ccfolio.Tests.Postgres.{runtime, runtime_laws, new_statements, new_statements-IsReady}
use ccfolio.Tests.Postgres.Executed.{server, run}
use ccfolio.Tests.Postgres.Answers.{server_laws, conditions}
use ccfolio.Tests.Postgres.Connected.{Conn, odb, forwards, load_delayed, connected, ann}

abbrev bob : User
bob = record { id = 0; username = text "bob"; password_hash = text "longer"; salt = text "salt" }

idle : (c : Conn) → c.statements.delayed ≡ [] → load_delayed c ≡ (ok tt, c)
idle c e = refl

-- Two of the columns are longer than the buffers of a new connection.
find_whole : (find runtime server load_delayed 1 connected).0 ≡ ok (some ann)
unfolding find find_ store_id rebind_id rebind_select rebind bind bind_id init_id id_cells
    read_id_cells fetch_first fetch is_truncated grow_image refetch init_object run str_eq text
    select
find_whole = refl

persist-Runs_example :
    Runs new_statements
      (persist runtime server bob connected)
      (persist_on runtime server bob connected.server)
persist-Runs_example =
    persist-Runs runtime runtime_laws server connected new_statements-IsReady.fresh bob

update-Runs_example :
    Runs new_statements
      (update runtime server ann connected)
      (update_on runtime server ann connected.server)
update-Runs_example =
    update-Runs runtime runtime_laws server connected new_statements-IsReady.fresh ann

find-Runs_example :
    Runs new_statements
      (find runtime server load_delayed 1 connected)
      (find_on runtime server none (λ obj. some obj) 1 connected.server)
find-Runs_example =
    find-Runs runtime server runtime_laws load_delayed idle connected new_statements-IsReady 1

Forwards-OdbLaws_example :
    (kept : OdbLaws odb user_schema) × ((d : odb.Db)
      → kept.rows d ≡ server_laws.rows (forwards.conn d).server)
    × ((d : odb.Db) → kept.view d ≡ server_laws.view (forwards.conn d).server)
Forwards-OdbLaws_example =
    Forwards-OdbLaws runtime runtime_laws server conditions load_delayed idle forwards
