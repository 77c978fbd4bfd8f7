-- ===== src/Service/Credentials.antt =====
-- app/Services/UserService.h: which request bodies are read, and what is said of the others.
use ccfolio.Common.{◌≡◌, refl, ◌⊎◌, inl, inr}
use ccfolio.Common.Text.{Str, text}
use ccfolio.Common.Effect.{json_error, ok, throw}
use ccfolio.External.World.{World}
use ccfolio.Interfaces.{IUserRepository}
use ccfolio.Service.{Libraries, on_service_failure, credentials, create_user, user_login}

pub sum-cases {ℓ κ} :
    {A : Type ℓ} {B : Type κ} (s : A ⊎ B) → ((a : A) × (s ≡ inl a)) ⊎ ((b : B) × (s ≡ inr b))
sum-cases (inl a) = inl (a, refl)
sum-cases (inr b) = inr (b, refl)

module _ (lib : Libraries) {D : Type 0} where
  open lib use {json}

  -- The five steps that read a body either all succeed, or the first that fails throws a JSON
  -- exception; the outcome depends on the body alone, and the world stays as it is.
  pub credentials-cases :
      (request : Str)
      → ((given : Str × Str) × ((w : World D) → credentials lib request w ≡ (ok given, w)))
        ⊎ ((m : Str) × ((w : World D) → credentials lib request w ≡ (throw (json_error m), w)))
  unfolding credentials
  credentials-cases request = elim (sum-cases (json.parse request)) [
    | inl (m, e) ↦ inr (m, λ w. rw e)
    | inr (j, e) ↦ elim (sum-cases (json.index j (text "username"))) [
      | inl (m, f) ↦ inr (m, λ w. rw (e, f))
      | inr (n, f) ↦ elim (sum-cases (json.get_string n)) [
        | inl (m, g) ↦ inr (m, λ w. rw (e, f, g))
        | inr (u, g) ↦ elim (sum-cases (json.index j (text "password"))) [
          | inl (m, h) ↦ inr (m, λ w. rw (e, f, g, h))
          | inr (s, h) ↦ elim (sum-cases (json.get_string s)) [
            | inl (m, i) ↦ inr (m, λ w. rw (e, f, g, h, i))
            | inr (p, i) ↦ inl ((u, p), λ w. rw (e, f, g, h, i))
          ]
        ]
      ]
    ]
  ]

  -- A body that is not read is handed to the same `catch` clause by both operations, in the world of
  -- the call, whatever the repository is.
  pub unread-invalid_json :
      (repo : IUserRepository D) (request : Str) (w : World D) (m : Str)
      → credentials lib request w ≡ (throw (json_error m), w)
      → (create_user lib repo request w ≡ on_service_failure json (json_error m) w)
        × (user_login lib repo request w ≡ on_service_failure json (json_error m) w)
  unfolding create_user user_login
  unread-invalid_json repo request w m e = (rw e refl, rw e refl)
