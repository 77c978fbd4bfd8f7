-- ===== src/Repositories/UserRepository/Registration.antt =====
-- app/Repositories/UserRepository.h: what `createUser` stores.
use ccfolio.Common.{ℕ, ◌≡◌, ◌≢◌, refl, ap, ◌∙◌, ◌⊎◌, inl, inr, Option, some, [], ◌∷◌, ◌++◌, subst}
use ccfolio.Common.Text.{Str}
use ccfolio.Common.Effect.{Outcome, ok}
use ccfolio.Common.Effect.Rules.{recover_returned}
use ccfolio.External.World.{World}
use ccfolio.External.Odb.{Odb}
use ccfolio.External.Odb.Laws.{OdbLaws}
use ccfolio.Entities.OperationResult.{
  OperationResult, success_result, failure_result, is_success, bool_default, option_default,
}
use ccfolio.Entities.User.{User, user_default}
use ccfolio.Repositories.OdbRepository.Atomic.{create-Atomic}
use ccfolio.Repositories.UserRepository.{
  already_exist_message, not_created_message, get_user_by_username, store, create_user,
}
use ccfolio.Repositories.UserRepository.Lookup.{
  user_schema, named, Broken, get_user_by_username-cases,
}
use mathlib.Core.List.{Mem, not-mem-nil}

abbrev pub with_id : ℕ → User → User
with_id id user = record user { id = id }

module _ (odb : Odb User ℕ Str) (laws : OdbLaws odb user_schema) where
  open laws use {rows}

  abbrev pub looked : User → World odb.Db → Outcome (OperationResult (Option User)) × World odb.Db
  looked user w = get_user_by_username odb user.username w

  -- The user is stored under a key of the database's; the result is the user as given, whose key is
  -- still 0.
  abbrev pub Stored : User → World odb.Db → Outcome (OperationResult User) × World odb.Db → Type 0
  Stored user w r =
      (r.0 ≡ ok (success_result user))
      × ((id : ℕ) × (rows r.1.db ≡ rows w.db ++ with_id id user ∷ []))

  abbrev pub Refused : Str → World odb.Db → Outcome (OperationResult User) × World odb.Db → Type 0
  Refused message w r = (r.0 ≡ ok (failure_result message)) × (rows r.1.db ≡ rows w.db)

  pub store-cases :
      (user : User) (w : World odb.Db)
      → Stored user w (store odb user w)
        ⊎ Refused (not_created_message user.username) w (store odb user w)
  unfolding store is_success success_result failure_result
  store-cases user w = elim (create-Atomic odb laws user w) [
    | inl ((returned, log), (id, stored)) ↦ rw returned (inl (refl, (id, stored)))
    | inr (returned, stored, log) ↦ rw returned (inr (refl, stored))
  ]

  store_returned :
      (user : User) (w : World odb.Db) → (a : OperationResult User) × ((store odb user w).0 ≡ ok a)
  store_returned user w = elim (store-cases user w) [
    | inl (returned, _) ↦ (success_result user, returned)
    | inr (returned, _) ↦ (failure_result (not_created_message user.username), returned)
  ]

  -- After a lookup that found somebody nothing more is done.
  create_user_found :
      (user found : User) (w : World odb.Db)
      → (looked user w).0 ≡ ok (success_result (some found))
      → create_user odb user w
        ≡ (ok (failure_result (already_exist_message user.username)), (looked user w).1)
  unfolding create_user is_success success_result
  create_user_found user found w e = rw e

  -- After any other the user is stored, also when the lookup itself has failed.
  create_user_other :
      (user : User) (w : World odb.Db) (m : Str)
      → (looked user w).0 ≡ ok (failure_result m)
      → create_user odb user w ≡ store odb user (looked user w).1
  unfolding create_user is_success failure_result
  create_user_other user w m e =
      let (a, returned) = store_returned user (looked user w).1 in
      rw e (recover_returned _ _ a returned)

  after_lookup :
      (user : User) (w : World odb.Db) (m : Str)
      → (looked user w).0 ≡ ok (failure_result m)
      → Stored user w (create_user odb user w)
        ⊎ Refused (not_created_message user.username) w (create_user odb user w)
  after_lookup user w m e =
      let same = (get_user_by_username-cases odb laws user.username w).1 in
      rw (create_user_other user w m e) elim (store-cases user (looked user w).1) [
        | inl (returned, (id, stored)) ↦
            inl (returned, (id, stored ∙ ap (λ l. l ++ with_id id user ∷ []) same))
        | inr (returned, stored) ↦ inr (returned, stored ∙ same)
      ]

  -- `createUser` always returns. If a user of that name is found, it refuses and nothing is stored.
  -- Otherwise, and that is also when the lookup failed, it stores the user under a key of the
  -- database's, or it fails and stores nothing.
  pub create_user-cases :
      (user : User) (w : World odb.Db)
      → (Refused (already_exist_message user.username) w (create_user odb user w)
          × (named user.username (rows w.db) ≢ []))
        ⊎ ((named user.username (rows w.db) ≡ []) ⊎ Broken odb laws user.username w (looked user w))
          × (Stored user w (create_user odb user w)
              ⊎ Refused (not_created_message user.username) w (create_user odb user w))
  create_user-cases user w =
      let (outcome, same) = get_user_by_username-cases odb laws user.username w in
      elim outcome [
        | inl (found, e, listed, _) ↦
            let run = create_user_found user found w e in
            inl (
              (ap (λ r. r.0) run, ap (λ r. rows r.1.db) run ∙ same),
              λ none_named. not-mem-nil (subst (Mem found) none_named listed),
            )
        | inr (inl (e, none_named, _)) ↦ inr (inl none_named, after_lookup user w _ e)
        | inr (inr (e, log)) ↦ inr (inr (e, log), after_lookup user w _ e)
      ]
