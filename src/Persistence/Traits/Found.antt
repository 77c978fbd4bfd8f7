-- ===== src/Persistence/Traits/Found.antt =====
-- app/Entities/odb/User-odb.cxx: what the two `find`s and `reload` load.
use ccfolio.Common.{
  ℕ, ◌≡◌, refl, ap, sym, subst, ◌∙◌, List, [], ◌∷◌, Bool, true, false, if◌then◌else◌, Option, none,
  some,
}
use ccfolio.Common.Effect.{M, pure, ◌>>=◌, Outcome, ok}
use ccfolio.Common.Effect.Rules.{continue-continue}
use ccfolio.External.Pgsql.{Runtime, Server, int_cell}
use ccfolio.External.Pgsql.Laws.{RuntimeLaws}
use ccfolio.Entities.User.{User, user_default}
use ccfolio.Persistence.Image.{statement_select, bind, init_object}
use ccfolio.Persistence.Texts.{find_statement}
use ccfolio.Persistence.Statements.{Connection, Statements, rebind_select, id_cells}
use ccfolio.Persistence.Statements.Fresh.{IsFresh, rebind_select-IsFresh, rebind_select-binds}
use ccfolio.Persistence.Fetch.Again.{fetch_first-Loaded}
use ccfolio.Persistence.Traits.{
  modify, send, fetch_result, find_, load_object, find_locked, find, find_into, reload, lock,
  release, id_of, with_lock, delay_load,
}
use ccfolio.Persistence.Traits.Runs.{Runs, Runs-send}
use ccfolio.Persistence.Traits.Prepared.{Prepared, for_key, for_key-Prepared}

-- A load that is not under way, on a connection with no stale pointer.
pub record IsReady (sts : Statements) : Type 0 where
  pub fresh : IsFresh sts
  pub unlocked : sts.locked ≡ false
  pub nothing_delayed : sts.delayed ≡ []

-- The first row of a result, as a value.
unfoldable pub first_row {ℓ} : {A : Type ℓ} → A → (User → A) → List User → A
first_row missing found [] = missing
first_row missing found (row ∷ _) = found row

module _ {S : Type 0} (rt : Runtime) (sv : Server S) where
  -- `find` without bindings and buffers: the first row that the server selects by the key.
  unfoldable pub find_on : {A : Type 0} → A → (User → A) → ℕ → M S A
  find_on missing found id = do
    result ← sv.execute find_statement (int_cell id false ∷ [])
    pure (first_row missing found result.rows)

  module _ (laws : RuntimeLaws rt) (load_delayed : M (Connection S) (Unit {0}))
      (idle : (c : Connection S) → c.statements.delayed ≡ [] → load_delayed c ≡ (ok tt, c))
      {A : Type 0} (missing : A) (found : User → A) where
    answer : Bool → M (Connection S) A
    answer b =
        if b then (load_object rt sv load_delayed >>= λ obj. pure (found obj)) else pure missing

    load_object-idle :
        (c : Connection S)
        → c.statements.delayed ≡ []
        → load_object rt sv load_delayed c ≡ (ok (init_object rt c.statements.image), c)
    unfolding load_object
    load_object-idle c e = rw (idle c e)

    answer-Runs :
        (before : Statements) (rows : List User) (c : Connection S)
        → IsFresh c.statements
        → c.statements.select_binding.binds ≡ bind c.statements.image statement_select
        → c.statements.locked ≡ before.locked
        → c.statements.delayed ≡ before.delayed
        → before.delayed ≡ []
        → Runs before
            ((fetch_result rt sv rows >>= answer) c)
            (ok (first_row missing found rows), c.server)
    unfolding fetch_result answer first_row
    answer-Runs before [] c fresh up locked delayed none_delayed = record {
      outcome = refl;
      server = refl;
      fresh = fresh;
      locked = locked;
      delayed = delayed;
    }
    answer-Runs before (row ∷ rest) c fresh up locked delayed none_delayed =
        let (sts, fetched, loaded) = fetch_first-Loaded laws row c.statements fresh up in
        let after : Connection S = record c { statements = sts } in
        let empty : sts.delayed ≡ [] = loaded.delayed ∙ delayed ∙ none_delayed in
        rw fetched (
          rw (load_object-idle after empty) (record {
            outcome = ap (λ o. ok (found o)) loaded.whole;
            server = refl;
            fresh = loaded.fresh;
            locked = loaded.locked ∙ locked;
            delayed = loaded.delayed ∙ delayed;
          }))

    abbrev for_find : (sts : Statements) → IsFresh sts → ℕ → Statements
    for_find sts fresh id = rebind_select (for_key laws sts fresh id)

    for_find-Prepared :
        (sts : Statements) (fresh : IsFresh sts) (id : ℕ)
        → Prepared laws sts
            (for_find sts fresh id)
            (id_cells (for_find sts fresh id))
            (int_cell id false ∷ [])
    unfolding rebind_select id_cells
    for_find-Prepared sts fresh id =
        let ready = for_key-Prepared laws sts fresh id in
        record {
          fresh = rebind_select-IsFresh ready.fresh;
          sends = ready.sends;
          locked = ready.locked;
          delayed = ready.delayed;
        }

    for_find-up :
        (sts : Statements) (fresh : IsFresh sts) (id : ℕ)
        → let done = for_find sts fresh id in
          done.select_binding.binds ≡ bind done.image statement_select
    unfolding rebind_select
    for_find-up sts fresh id = rebind_select-binds (for_key-Prepared laws sts fresh id).fresh

    find_-Runs :
        (c : Connection S)
        → IsFresh c.statements
        → c.statements.delayed ≡ []
        → (id : ℕ)
        → Runs c.statements ((find_ rt sv id >>= answer) c) (find_on missing found id c.server)
    unfolding find_ find_on
    find_-Runs c fresh empty id =
        let ready = for_find-Prepared c.statements fresh id in
        let c' : Connection S = record c { statements = for_find c.statements fresh id } in
        subst (λ r. Runs c.statements r (find_on missing found id c.server))
          (sym (
            continue-continue (λ result. fetch_result rt sv result.rows) answer
              (send rt sv find_statement id_cells c')))
          (Runs-send rt sv find_statement id_cells (int_cell id false ∷ [])
            (λ result. fetch_result rt sv result.rows >>= answer)
            (λ result. pure (first_row missing found result.rows)) c.statements c' ready.sends
            ready.fresh ready.locked ready.delayed
            (λ result s.
              answer-Runs c.statements result.rows (record c' { server = s }) ready.fresh
                (for_find-up c.statements fresh id) ready.locked ready.delayed empty))

    -- The scope of the lock changes nothing but the lock.
    with_lock-Runs :
        (c : Connection S) (r : Outcome A × Connection S) (d : Outcome A × S)
        → IsReady c.statements
        → Runs (lock rt sv true c).statements r d
        → Runs c.statements (release rt sv r) d
    with_lock-Runs c (o, c') d ready runs = record {
      outcome = runs.outcome;
      server = runs.server;
      fresh = record {
        inserts = runs.fresh.inserts;
        updates = runs.fresh.updates;
        selects = runs.fresh.selects;
        keys = runs.fresh.keys;
        uncounted = runs.fresh.uncounted;
      };
      locked = sym ready.unlocked;
      delayed = runs.delayed;
    }

    loaded-Runs :
        (c : Connection S)
        → IsReady c.statements
        → (id : ℕ)
        → Runs c.statements
            (release rt sv ((find_ rt sv id >>= answer) (lock rt sv true c)))
            (find_on missing found id c.server)
    loaded-Runs c ready id =
        let fresh = ready.fresh in
        let held : IsFresh (lock rt sv true c).statements = record {
          inserts = fresh.inserts;
          updates = fresh.updates;
          selects = fresh.selects;
          keys = fresh.keys;
          uncounted = fresh.uncounted;
        } in
        with_lock-Runs c _ _ ready (find_-Runs (lock rt sv true c) held ready.nothing_delayed id)

  module _ (laws : RuntimeLaws rt) (load_delayed : M (Connection S) (Unit {0}))
      (idle : (c : Connection S) → c.statements.delayed ≡ [] → load_delayed c ≡ (ok tt, c))
      (c : Connection S) (ready : IsReady c.statements) where
    later : ℕ → Outcome (Option User) × Connection S
    later id =
        (modify (delay_load rt sv load_delayed id) >>= λ _. pure (some user_default.default)) c

    -- Let the runtime behave as documented, let no binding point to a freed buffer, and let no load be
    -- under way or delayed. Then `find` is one execution of the SELECT with the key, and returns the
    -- first row that it selects, every text of it whole, also where a buffer was too small at first,
    -- or nothing if there is no row. No statement reads or writes a freed buffer, no binding points
    -- to one afterwards, and the lock is released however the call ends.
    pub find-Runs :
        (id : ℕ)
        → Runs c.statements
            (find rt sv load_delayed id c)
            (find_on none (λ obj. some obj) id c.server)
    unfolding find find_locked answer later
    find-Runs id =
        subst
          (λ b.
            Runs c.statements
              (if b then later id else with_lock rt sv (find_locked rt sv load_delayed id) c)
              (find_on none (λ obj. some obj) id c.server))
          (sym ready.unlocked)
          (loaded-Runs laws load_delayed idle none (λ obj. some obj) c ready id)

    pub find_into-Runs :
        (id : ℕ) (obj : User)
        → Runs c.statements
            (find_into rt sv load_delayed id obj c)
            (find_on (false, obj) (λ loaded. (true, loaded)) id c.server)
    unfolding find_into answer
    find_into-Runs id obj =
        loaded-Runs laws load_delayed idle (false, obj) (λ loaded. (true, loaded)) c ready id

    pub reload-Runs :
        (obj : User)
        → Runs c.statements
            (reload rt sv load_delayed obj c)
            (find_on (false, obj) (λ loaded. (true, loaded)) obj.id c.server)
    unfolding reload id_of
    reload-Runs obj = find_into-Runs obj.id obj
