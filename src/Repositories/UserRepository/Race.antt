-- ===== src/Repositories/UserRepository/Race.antt =====
-- app/Repositories/UserRepository.h and app/main.cc: `createUser` on two worker threads, step by step
-- where one transaction of a call ends and another call can come in between.
use ccfolio.Common.{
  ℕ, ◌≡◌, ◌≢◌, refl, sym, ap, ◌∙◌, ◌⊎◌, inl, inr, Option, List, [], ◌∷◌, ◌++◌, Bool, true, false,
  subst, if◌then◌else◌, Bool-cases,
}
use ccfolio.Common.Text.{Str, str_eq_iff}
use ccfolio.Common.Effect.{
  Exception, odb_error, connection_lost, Outcome, ok, throw, M, pure, continue, recover,
}
use ccfolio.Common.Effect.Rules.{recover_returned}
use ccfolio.External.World.{World}
use ccfolio.External.Odb.{Odb}
use ccfolio.External.Odb.Laws.{OdbLaws}
use ccfolio.Entities.OperationResult.{
  OperationResult, success_result, failure_result, is_success, option_default,
}
use ccfolio.Entities.User.{User, user_default}
use ccfolio.Repositories.UserRepository.{
  already_exist_message, on_odb_failure, get_user_by_username, store, create_user,
}
use ccfolio.Repositories.UserRepository.Lookup.{user_schema}
use ccfolio.Repositories.UserRepository.Registration.{store-cases, with_id}
use ccfolio.Repositories.UserRepository.Distinct.{Distinct, named_of_Distinct, named-last}

-- How far a call has come.
pub data Phase : Type 0 where
  looking : User → Phase
  storing : User → Phase
  returned : Outcome (OperationResult User) → Phase

returned_inj : {a b : Outcome (OperationResult User)} → returned a ≡ returned b → a ≡ b
returned_inj e = cc

module _ (odb : Odb User ℕ Str) where
  -- After the lookup; what it throws is handled by the `catch` of `createUser`.
  unfoldable pub looked_up :
      User → Outcome (OperationResult (Option User)) × World odb.Db → Phase × World odb.Db
  looked_up user (ok found, w) =
      if is_success found
      then (returned (ok (failure_result (already_exist_message user.username))), w)
      else (storing user, w)
  looked_up user (throw e, w) = let r = on_odb_failure e w in (returned r.0, r.1)

  unfoldable pub finish : Outcome (OperationResult User) × World odb.Db → Phase × World odb.Db
  finish (o, w) = (returned o, w)

  -- One step is one transaction.
  unfoldable pub step : Phase → World odb.Db → Phase × World odb.Db
  unfolding looked_up finish
  step (looking user) w = looked_up user (get_user_by_username odb user.username w)
  step (storing user) w = finish (recover on_odb_failure (store odb user w))
  step (returned o) w = (returned o, w)

  -- Two calls, and whose step is next.
  pub record Calls : Type 0 where
    pub first : Phase
    pub second : Phase
    pub world : World odb.Db

  unfoldable pub turn : Bool → Calls → Calls
  turn true s = let r = step s.first s.world in record s { first = r.0; world = r.1 }
  turn false s = let r = step s.second s.world in record s { second = r.0; world = r.1 }

  unfoldable pub run : List Bool → Calls → Calls
  run [] s = s
  run (b ∷ schedule) s = run schedule (turn b s)

  rest : User → OperationResult (Option User) → M (World odb.Db) (OperationResult User)
  rest user user_exist =
      if is_success user_exist
      then pure (failure_result (already_exist_message user.username))
      else store odb user

  step-looked_up :
      (user : User) (r : Outcome (OperationResult (Option User)) × World odb.Db)
      → let once = looked_up user r in
        step once.0 once.1 ≡ finish (recover on_odb_failure (continue (rest user) r))
  unfolding step rest
  step-looked_up user (ok found, w) = elim (Bool-cases (is_success found)) [
    | inl e ↦ rw e
    | inr e ↦ rw e
  ]
  step-looked_up user (throw x, w) = refl

  -- Alone, a call comes to its end in two steps, as `create_user` does.
  pub step-create_user :
      (user : User) (w : World odb.Db)
      → let once = step (looking user) w in
        step once.0 once.1 ≡ (returned (create_user odb user w).0, (create_user odb user w).1)
  unfolding step create_user rest
  step-create_user user w = step-looked_up user (get_user_by_username odb user.username w)

  -- A call whose lookup is over: it is about to store the user, or it has not succeeded.
  abbrev Waiting : User → Phase → Type 0
  Waiting user p =
      (p ≡ storing user)
      ⊎ ((o : Outcome (OperationResult User)) × (p ≡ returned o) × (o ≢ ok (success_result user)))

  on_odb_failure-ne_success :
      (user : User) (e : Exception) (w : World odb.Db)
      → (on_odb_failure e w).0 ≢ ok (success_result user)
  unfolding on_odb_failure success_result failure_result
  on_odb_failure-ne_success user (odb_error m) w h = cc
  on_odb_failure-ne_success user (connection_lost m) w h = cc
  on_odb_failure-ne_success user _ w h = cc

  looked_up-Waiting :
      (user : User) (r : Outcome (OperationResult (Option User)) × World odb.Db)
      → Waiting user (looked_up user r).0
  unfolding looked_up success_result failure_result
  looked_up-Waiting user (ok found, w) = elim (Bool-cases (is_success found)) [
    | inl e ↦ rw e (inr (_, refl, λ h. cc))
    | inr e ↦ rw e (inl refl)
  ]
  looked_up-Waiting user (throw x, w) =
      inr ((on_odb_failure x w).0, refl, on_odb_failure-ne_success user x w)

  step-Waiting : (user : User) (w : World odb.Db) → Waiting user (step (looking user) w).0
  unfolding step
  step-Waiting user w = looked_up-Waiting user (get_user_by_username odb user.username w)

  module _ (laws : OdbLaws odb user_schema) where
    open laws use {rows}

    step-storing :
        (user : User) (w : World odb.Db)
        → (step (storing user) w).0 ≡ returned (ok (success_result user))
        → (id : ℕ) × (rows (step (storing user) w).1.db ≡ rows w.db ++ with_id id user ∷ [])
    unfolding step success_result failure_result
    step-storing user w h = elim (store-cases odb laws user w) [
      | inl (e, (id, stored)) ↦
          (id, ap (λ r. rows r.1.db) (recover_returned on_odb_failure _ _ e) ∙ stored)
      | inr (e, same) ↦
          let bad =
            sym (ap (λ r. r.0) (recover_returned on_odb_failure _ _ e) ∙ e) ∙ returned_inj h in
          absurd (cc)
    ]

    -- A step that ends a call with success has stored the user.
    step-stored :
        (user : User) (p : Phase) (w : World odb.Db)
        → Waiting user p
        → (step p w).0 ≡ returned (ok (success_result user))
        → (id : ℕ) × (rows (step p w).1.db ≡ rows w.db ++ with_id id user ∷ [])
    unfolding step
    step-stored user p w (inr (o, e, failed)) h =
        absurd (failed (returned_inj (ap (λ q. (step q w).0) (sym e) ∙ h)))
    step-stored user p w (inl e) h =
        subst (λ q. (id : ℕ) × (rows (step q w).1.db ≡ rows w.db ++ with_id id user ∷ [])) (sym e)
          (step-storing user w (ap (λ q. (step q w).0) (sym e) ∙ h))

    taken_twice :
        (a b : User) (l : List User) (i j : ℕ)
        → a.username ≡ b.username
        → ¬ Distinct ((l ++ with_id i a ∷ []) ++ with_id j b ∷ [])
    taken_twice a b l i j same d =
        let free = named_of_Distinct (l ++ with_id i a ∷ []) (with_id j b) d in
        let apart = named-last b.username l (with_id i a) free in
        let equal = (str_eq_iff a.username b.username).1 same in cc

    -- Let two calls register the same username, and let both lookups be over before the first of the
    -- two stores. If both calls then return success, the usernames in the table are not distinct.
    pub run-duplicates :
        (a b : User) (w : World odb.Db)
        → a.username ≡ b.username
        → let end =
            run
              (true ∷ false ∷ true ∷ false ∷ [])
              (record { first = looking a; second = looking b; world = w }) in
          end.first ≡ returned (ok (success_result a))
          → end.second ≡ returned (ok (success_result b))
          → ¬ Distinct (rows end.world.db)
    unfolding run turn
    run-duplicates a b w same first second d =
        let looked_b = step (looking b) (step (looking a) w).1 in
        let (i, stored_a) =
          step-stored a (step (looking a) w).0 looked_b.1 (step-Waiting a w) first in
        let (j, stored_b) = step-stored b looked_b.0 _ (step-Waiting b _) second in
        taken_twice a b (rows looked_b.1.db) i j same
          (subst Distinct (stored_b ∙ ap (λ l. l ++ with_id j b ∷ []) stored_a) d)
