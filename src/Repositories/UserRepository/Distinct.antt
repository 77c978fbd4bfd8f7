-- ===== src/Repositories/UserRepository/Distinct.antt =====
-- app/Repositories/UserRepository.h: when the usernames in the table are distinct.
use ccfolio.Common.{ℕ, ◌≡◌, ◌≢◌, refl, inl, inr, false, List, [], ◌∷◌, ◌++◌, arith, Bool-cases}
use ccfolio.Common.Text.{Str, str_eq, str_eq_iff}
use ccfolio.Common.Effect.{ok}
use ccfolio.External.World.{World}
use ccfolio.External.Odb.{Odb}
use ccfolio.External.Odb.Laws.{OdbLaws, select}
use ccfolio.Entities.OperationResult.{success_result, failure_result, option_default}
use ccfolio.Entities.User.{User, user_default}
use ccfolio.Repositories.UserRepository.{something_happened, get_user_by_username, create_user}
use ccfolio.Repositories.UserRepository.Lookup.{user_schema, named}
use ccfolio.Repositories.UserRepository.Registration.{create_user-cases}

-- No two rows have the same username.
abbrev pub Distinct : List User → Type 0
Distinct [] = Unit
Distinct (user ∷ l) = (named user.username l ≡ []) × Distinct l

named-append : (n : Str) (l m : List User) → named n l ≡ [] → named n m ≡ [] → named n (l ++ m) ≡ []
unfolding select
named-append n [] m hl hm = hm
named-append n (v ∷ l) m hl hm = ground (arith, named-append n l m)

Distinct-append :
    (l : List User) (u : User) → Distinct l → named u.username l ≡ [] → Distinct (l ++ u ∷ [])
unfolding select
Distinct-append [] u d h = (refl, tt)
Distinct-append (v ∷ l) u d h = elim (Bool-cases (str_eq v.username u.username)) [
  | inl same ↦ let x = rw same at h in cc
  | inr other ↦
      let rest = rw other at h in
      let apart : str_eq u.username v.username ≡ false =
        ground (arith, str_eq_iff u.username v.username, str_eq_iff v.username u.username) in
      (named-append v.username l (u ∷ []) d.0 (rw apart), Distinct-append l u d.1 rest)
]

pub named-last :
    (n : Str) (l : List User) (u : User) → named n (l ++ u ∷ []) ≡ [] → str_eq u.username n ≡ false
unfolding select
named-last n [] u h = ground arith
named-last n (v ∷ l) u h = elim (Bool-cases (str_eq v.username n)) [
  | inl same ↦ let x = rw same at h in cc
  | inr other ↦ named-last n l u (rw other at h)
]

pub named_of_Distinct :
    (l : List User) (u : User) → Distinct (l ++ u ∷ []) → named u.username l ≡ []
unfolding select
named_of_Distinct [] u d = refl
named_of_Distinct (v ∷ l) u d = elim (Bool-cases (str_eq v.username u.username)) [
  | inl same ↦ ground (
    arith,
    named-last v.username l u d.0,
    str_eq_iff u.username v.username,
    str_eq_iff v.username u.username,
  )
  | inr other ↦ rw other (named_of_Distinct l u d.1)
]

module _ (odb : Odb User ℕ Str) (laws : OdbLaws odb user_schema) (user : User)
    (w : World odb.Db) where
  open laws use {rows}

  -- If the usernames in the table are distinct and the lookup does not fail on the database, they are
  -- distinct after `createUser`, however it ends.
  pub create_user-Distinct :
      Distinct (rows w.db)
      → (get_user_by_username odb user.username w).0 ≢ ok (failure_result something_happened)
      → Distinct (rows (create_user odb user w).1.db)
  create_user-Distinct d works = elim (create_user-cases odb laws user w) [
    | inl ((_, same), _) ↦ rw same d
    | inr (inr broken, _) ↦ absurd (works broken.0)
    | inr (inl none_named, inl (_, (id, stored))) ↦
        rw stored (Distinct-append (rows w.db) _ d none_named)
    | inr (inl none_named, inr (_, same)) ↦ rw same d
  ]

  -- If the lookup fails on the database, a name that is taken is registered once more: whenever the
  -- call succeeds, the usernames are not distinct any more.
  pub create_user_duplicates :
      (get_user_by_username odb user.username w).0 ≡ ok (failure_result something_happened)
      → named user.username (rows w.db) ≢ []
      → (create_user odb user w).0 ≡ ok (success_result user)
      → ¬ Distinct (rows (create_user odb user w).1.db)
  unfolding success_result failure_result
  create_user_duplicates broken taken success d = elim (create_user-cases odb laws user w) [
    | inl ((refused, _), _) ↦ cc
    | inr (_, inl (_, (id, stored))) ↦ taken (named_of_Distinct (rows w.db) _ (rw stored at d))
    | inr (_, inr (refused, _)) ↦ cc
  ]
