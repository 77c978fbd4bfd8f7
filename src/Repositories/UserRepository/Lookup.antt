-- ===== src/Repositories/UserRepository/Lookup.antt =====
-- app/Repositories/UserRepository.h: what a lookup by username finds.
use ccfolio.Common.{ℕ, ◌≡◌, refl, sym, ◌∙◌, ◌⊎◌, inl, inr, Option, some, List, [], ◌∷◌, subst, ◌==◌}
use ccfolio.Common.Text.{Str, str_eq}
use ccfolio.Common.Effect.{Exception, Outcome, ok, Outcome-cases}
use ccfolio.External.World.{World}
use ccfolio.External.Odb.{Odb}
use ccfolio.External.Odb.Laws.{OdbLaws, Schema, select}
use ccfolio.Entities.OperationResult.{
  OperationResult, success_result, failure_result, option_default,
}
use ccfolio.Entities.User.{User}
use ccfolio.Repositories.OdbRepository.Perform.{logged}
use ccfolio.Repositories.UserRepository.{
  something_happened, not_found_message, on_lookup_failure, first_row, get_user_by_username,
}
use mathlib.Core.List.{Perm, Mem, mem-cons_self}
use mathlib.Core.List.Perm

-- The table `User`, queried by username.
abbrev pub user_schema : Schema User ℕ Str
user_schema = record {
  id_of = λ user. user.id;
  with_id = λ id user. record user { id = id };
  has_id = λ id user. user.id == id;
  holds = λ username user. str_eq user.username username;
}

-- The rows with a username.
abbrev pub named : Str → List User → List User
named username = select (λ user. str_eq user.username username)

module _ (odb : Odb User ℕ Str) (laws : OdbLaws odb user_schema) where
  open laws use {rows, view}

  module _ (username : Str) (w : World odb.Db)
      (r : Outcome (OperationResult (Option User)) × World odb.Db) where
    -- The lookup returned a stored user of that name.
    abbrev pub Found : Type 0
    Found =
        (user : User) × (r.0 ≡ ok (success_result (some user)))
        × Mem user (named username (rows w.db))
        × (r.1.log ≡ w.log)

    -- There is none.
    abbrev pub Missing : Type 0
    Missing =
        (r.0 ≡ ok (failure_result (not_found_message username)))
        × (named username (rows w.db) ≡ [])
        × (r.1.log ≡ w.log)

    -- The database failed.
    abbrev pub Broken : Type 0
    Broken =
        (r.0 ≡ ok (failure_result something_happened))
        × ((x : Exception) × (r.1.log ≡ (logged x w).log))

  abbrev Looked :
      Str → World odb.Db → Outcome (OperationResult (Option User)) × World odb.Db → Type 0
  Looked username w r =
      (Found username w r ⊎ Missing username w r ⊎ Broken username w r) × (rows r.1.db ≡ rows w.db)

  abbrev begun : World odb.Db → odb.Db
  begun w = (odb.begin w.db).1

  queried : Str → World odb.Db → odb.Db
  queried username w = (odb.query username (begun w)).1

  -- The query has read the stored rows, and left them as they were.
  queried_rows : (username : Str) (w : World odb.Db) → rows (queried username w) ≡ rows w.db
  unfolding queried
  queried_rows username w = laws.query_rows username _ ∙ laws.begin_rows w.db

  queried_view :
      (username : Str) (w : World odb.Db)
      → (odb.begin w.db).0 ≡ ok tt
      → view (queried username w) ≡ rows w.db
  unfolding queried
  queried_view username w e = laws.query_view username _ ∙ laws.begin_view w.db e

  queried_result :
      (username : Str) (w : World odb.Db) (l : List User)
      → (odb.begin w.db).0 ≡ ok tt
      → (odb.query username (begun w)).0 ≡ ok l
      → Perm l (named username (rows w.db))
  queried_result username w l e f =
      subst (λ v. Perm l (named username v)) (laws.begin_view w.db e)
        (laws.query_result username _ l f)

  -- The loop over the result.
  first_row-Looked :
      (username : Str) (w : World odb.Db) (l : List User)
      → (odb.begin w.db).0 ≡ ok tt
      → (odb.query username (begun w)).0 ≡ ok l
      → Looked username w (get_user_by_username odb username w)
  unfolding get_user_by_username on_lookup_failure first_row queried
  first_row-Looked username w [] e f =
      rw (e, f)
        (
          inr (inl (refl, sym (Perm.nil-eq (queried_result username w [] e f)), refl)),
          laws.rollback_rows _ ∙ queried_rows username w,
        )
  first_row-Looked username w (user ∷ l) e f =
      let found = Perm.subset (queried_result username w (user ∷ l) e f) user mem-cons_self in
      elim (Outcome-cases (odb.commit (queried username w)).0) [
        | inl (u, g) ↦
            rw (e, f, g)
              (inl (user, refl, found, refl), laws.commit_ok _ g ∙ queried_view username w e)
        | inr (x, g) ↦
            rw (e, f, g)
              (
                inr (inr (refl, (x, refl))),
                laws.rollback_rows _ ∙ laws.commit_failed _ (x, g) ∙ queried_rows username w,
              )
      ]

  pub get_user_by_username-cases :
      (username : Str) (w : World odb.Db)
      → let r = get_user_by_username odb username w in
        (Found username w r ⊎ Missing username w r ⊎ Broken username w r)
        × (rows r.1.db ≡ rows w.db)
  unfolding get_user_by_username on_lookup_failure
  get_user_by_username-cases username w = elim (Outcome-cases (odb.begin w.db).0) [
    | inr (x, e) ↦ rw e (inr (inr (refl, (x, refl))), laws.begin_rows w.db)
    | inl (u, e) ↦ elim (Outcome-cases (odb.query username (odb.begin w.db).1).0) [
      | inr (x, f) ↦
          rw (e, f)
            (
              inr (inr (refl, (x, refl))),
              laws.rollback_rows _ ∙ laws.query_rows username _ ∙ laws.begin_rows w.db,
            )
      | inl (l, f) ↦ first_row-Looked username w l e f
    ]
  ]

  first_row-now :
      (username : Str) (w : World odb.Db) (l : List User)
      → (odb.begin w.db).0 ≡ ok tt
      → (odb.query username (begun w)).0 ≡ ok l
      → (get_user_by_username odb username w).1.now ≡ w.now
  unfolding get_user_by_username on_lookup_failure first_row queried
  first_row-now username w [] e f = rw (e, f)
  first_row-now username w (user ∷ l) e f =
      elim (Outcome-cases (odb.commit (queried username w)).0) [
        | inl (u, g) ↦ rw (e, f, g)
        | inr (x, g) ↦ rw (e, f, g)
      ]

  pub get_user_by_username-now :
      (username : Str) (w : World odb.Db) → (get_user_by_username odb username w).1.now ≡ w.now
  unfolding get_user_by_username on_lookup_failure
  get_user_by_username-now username w = elim (Outcome-cases (odb.begin w.db).0) [
    | inr (x, e) ↦ rw e
    | inl (u, e) ↦ elim (Outcome-cases (odb.query username (odb.begin w.db).1).0) [
      | inr (x, f) ↦ rw (e, f)
      | inl (l, f) ↦ first_row-now username w l e f
    ]
  ]
