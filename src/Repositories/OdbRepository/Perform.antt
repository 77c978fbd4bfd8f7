-- ===== src/Repositories/OdbRepository/Perform.antt =====
-- app/Repositories/OdbRepository.h: what the five operations have in common.
use ccfolio.Common.{
  ◌≡◌, refl, sym, ap, ◌∙◌, ◌⊎◌, inl, inr, List, [], ◌∷◌, ◌++◌, append_assoc, append-nil,
}
use ccfolio.Common.Effect.{
  Exception, connection_lost, what, M, pure, Outcome, ok, ◌>>=◌, ◌>>◌, try_catch, Outcome-cases,
}
use ccfolio.Logging.{error}
use ccfolio.External.World.{World, on_db}
use ccfolio.External.Odb.{Odb, committed, transaction}
use ccfolio.External.Odb.Laws.{OdbLaws, Schema}
use ccfolio.Entities.OperationResult.{
  Default, OperationResult, success_result, failure_result, bool_default, list_default,
}
use ccfolio.Repositories.OdbRepository.{try_later, on_failure, push_all}

abbrev pub logged : {D : Type 0} → Exception → World D → World D
logged x w = record w { log = w.log ++ record { level = error; message = what x } ∷ [] }

on_failure_lem :
    {D A : Type 0} ⦃d : Default A⦄ (x : Exception) (w : World D)
    → on_failure {D = D} {A = A} x w ≡ (ok (failure_result try_later), logged x w)
unfolding on_failure
on_failure_lem (connection_lost m) w = refl
on_failure_lem _ w = refl

pub push_all-append {ℓ} : {A : Type ℓ} (xs ys : List A) → push_all xs ys ≡ xs ++ ys
unfolding push_all
push_all-append xs [] = sym (append-nil xs)
push_all-append xs (y ∷ ys) = push_all-append (xs ++ y ∷ []) ys ∙ append_assoc xs (y ∷ []) ys

module _ {T IdType Q : Type 0} (odb : Odb T IdType Q) {schema : Schema T IdType Q}
    (laws : OdbLaws odb schema) where
  open laws use {rows, view}

  module _ {B R : Type 0} ⦃d : Default R⦄ (op : odb.Db → Outcome B × odb.Db) (wrap : B → R) where
    -- The shape that all five operations share.
    abbrev pub perform : M (World odb.Db) (OperationResult R)
    perform =
        try_catch
          (transaction odb
            do b ← on_db op; on_db odb.commit; pure (committed (success_result (wrap b))))
          on_failure

    -- The state in which the operation itself runs.
    abbrev pub begun : World odb.Db → odb.Db
    begun w = (odb.begin w.db).1

    abbrev pub Succeeds : World odb.Db → Outcome (OperationResult R) × World odb.Db → Type 0
    Succeeds w r =
        (b : B) × ((op (begun w)).0 ≡ ok b)
        × ((odb.begin w.db).0 ≡ ok tt)
        × (r.0 ≡ ok (success_result (wrap b)))
        × (rows r.1.db ≡ view (op (begun w)).1)
        × (r.1.log ≡ w.log)

    abbrev pub Fails : World odb.Db → Outcome (OperationResult R) × World odb.Db → Type 0
    Fails w r =
        (x : Exception) × (r.0 ≡ ok (failure_result try_later))
        × (rows r.1.db ≡ rows w.db)
        × (r.1.log ≡ (logged x w).log)

    pub perform-cases :
        ((s : odb.Db) → rows (op s).1 ≡ rows s)
        → (w : World odb.Db) → Succeeds w (perform w) ⊎ Fails w (perform w)
    perform-cases keeps w = elim (Outcome-cases (odb.begin w.db).0) [
      | inr (x, e) ↦
          let run : perform w
              ≡ (ok (failure_result try_later), logged x (record w { db = begun w })) =
            rw e (on_failure_lem x _) in
          inr (
            x,
            ap (λ r. r.0) run,
            ap (λ r. rows r.1.db) run ∙ laws.begin_rows w.db,
            ap (λ r. r.1.log) run,
          )
      | inl (u, e) ↦ elim (Outcome-cases (op (begun w)).0) [
        | inr (x, f) ↦
            let run : perform w ≡ (
              ok (failure_result try_later),
              logged x (record w { db = odb.rollback (op (begun w)).1 }),
            ) =
              rw (e, f) (on_failure_lem x _) in
            inr (
              x,
              ap (λ r. r.0) run,
              ap (λ r. rows r.1.db) run ∙ laws.rollback_rows _ ∙ keeps _ ∙ laws.begin_rows w.db,
              ap (λ r. r.1.log) run,
            )
        | inl (b, f) ↦ elim (Outcome-cases (odb.commit (op (begun w)).1).0) [
          | inr (x, g) ↦
              let run : perform w ≡ (
                ok (failure_result try_later),
                logged x (record w { db = odb.rollback (odb.commit (op (begun w)).1).1 }),
              ) =
                rw (e, f, g) (on_failure_lem x _) in
              inr (
                x,
                ap (λ r. r.0) run,
                ap (λ r. rows r.1.db) run
                    ∙ laws.rollback_rows _
                    ∙ laws.commit_failed _ (x, g)
                    ∙ keeps _
                    ∙ laws.begin_rows w.db,
                ap (λ r. r.1.log) run,
              )
          | inl (v, g) ↦
              let run : perform w ≡ (
                ok (success_result (wrap b)),
                record w { db = (odb.commit (op (begun w)).1).1 },
              ) =
                rw (e, f, g) in
              inl (
                b,
                f,
                e,
                ap (λ r. r.0) run,
                ap (λ r. rows r.1.db) run ∙ laws.commit_ok _ g,
                ap (λ r. r.1.log) run,
              )
        ]
      ]
    ]

  -- An operation that did not succeed has left the stored rows as they were and written one line to
  -- the log; its result says only to try again later.
  abbrev pub Unchanged :
      {R : Type 0} ⦃d : Default R⦄
      → World odb.Db
      → Outcome (OperationResult R) × World odb.Db
      → Type 0
  Unchanged w r =
      (r.0 ≡ ok (failure_result try_later))
      × (rows r.1.db ≡ rows w.db)
      × ((x : Exception) × (r.1.log ≡ (logged x w).log))

  abbrev pub Done :
      {R : Type 0} → R → World odb.Db → Outcome (OperationResult R) × World odb.Db → Type 0
  Done a w r = (r.0 ≡ ok (success_result a)) × (r.1.log ≡ w.log)
