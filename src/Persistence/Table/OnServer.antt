-- ===== src/Persistence/Table/OnServer.antt =====
-- app/Entities/odb/User-odb.cxx: what each operation does to the table on the server.
use ccfolio.Common.{
  ℕ, ◌≡◌, refl, ap, sym, subst, ◌∙◌, ◌⊎◌, inl, inr, List, [], ◌∷◌, ◌++◌, Bool, true, false, map,
  Option, none, some, some_inj, ◌==◌, if◌then◌else◌,
}
use ccfolio.Common.Effect.{Exception, M, ok, throw, Outcome-cases}
use ccfolio.Common.Effect.Rules.{ok_inj}
use ccfolio.External.Pgsql.{Runtime, Server, Result, int_cell}
use ccfolio.External.Odb.Laws.{replace}
use ccfolio.Entities.User.{User}
use ccfolio.Repositories.UserRepository.Lookup.{user_schema}
use ccfolio.Persistence.Image.Copies.{cells_of}
use ccfolio.Persistence.Texts.{persist_statement, find_statement, update_statement, erase_statement}
use ccfolio.Persistence.Traits.Runs.{given_key, persist_on, update_on, erase_on}
use ccfolio.Persistence.Traits.Found.{find_on, first_row}
use ccfolio.Persistence.Table.{ServerLaws, forget, rows_with, rows_without}
use mathlib.Core.List.{Mem, mem-cons_self, Perm}
use mathlib.Core.List.Perm

Option-cases {ℓ} : {A : Type ℓ} (o : Option A) → (o ≡ none) ⊎ ((a : A) × (o ≡ some a))
Option-cases none = inl refl
Option-cases (some a) = inr (a, refl)

if_state :
    {S A : Type 0} (b : Bool) (m k : M S A) (s : S)
    → (m s).1 ≡ s
    → (k s).1 ≡ s
    → ((if b then m else k) s).1 ≡ s
if_state true m k s hm hk = hm
if_state false m k s hm hk = hk

module _ {S : Type 0} (rt : Runtime) (sv : Server S) (laws : ServerLaws sv) where
  open laws use {rows, view}

  -- After the statement nothing more happens on the server.
  given_key-state : (o : User) (key : Option ℕ) (s : S) → (given_key rt sv o key s).1 ≡ s
  unfolding given_key
  given_key-state o none s = refl
  given_key-state o (some key) s = refl

  pub persist_on-state :
      (o : User) (s : S)
      → (persist_on rt sv o s).1 ≡ (sv.execute persist_statement (cells_of o) s).1
  unfolding persist_on
  persist_on-state o s = elim (Outcome-cases (sv.execute persist_statement (cells_of o) s).0) [
    | inl (r, e) ↦ rw e (given_key-state o r.returned _)
    | inr (x, e) ↦ rw e
  ]

  given_key-ok :
      (o : User) (key : Option ℕ) (s : S)
      → forget (given_key rt sv o key s).0 ≡ ok tt
      → (k : ℕ) × (key ≡ some k)
  unfolding given_key
  given_key-ok o none s e = cc
  given_key-ok o (some k) s e = (k, refl)

  persist_on-ok :
      (o : User) (s : S) (r : Result)
      → (sv.execute persist_statement (cells_of o) s).0 ≡ ok r
      → (persist_on rt sv o s).0
        ≡ (given_key rt sv o r.returned (sv.execute persist_statement (cells_of o) s).1).0
  unfolding persist_on
  persist_on-ok o s r e = rw e

  persist_on-throw :
      (o : User) (s : S) (x : Exception)
      → (sv.execute persist_statement (cells_of o) s).0 ≡ throw x
      → (persist_on rt sv o s).0 ≡ throw x
  unfolding persist_on
  persist_on-throw o s x e = rw e

  pub persist_on-view :
      (o : User) (s : S)
      → forget (persist_on rt sv o s).0 ≡ ok tt
      → (id : ℕ) × (view (persist_on rt sv o s).1 ≡ view s ++ record o { id = id } ∷ [])
  persist_on-view o s h = elim (Outcome-cases (sv.execute persist_statement (cells_of o) s).0) [
    | inl (r, e) ↦
        let key =
          given_key-ok o r.returned _ (subst (λ t. forget t ≡ ok tt) (persist_on-ok o s r e) h) in
        (key.0, ap view (persist_on-state o s) ∙ laws.insert_view o s r key.0 e key.1)
    | inr (x, e) ↦ let bad = ap forget (persist_on-throw o s x e) in cc
  ]

  pub update_on-state :
      (o : User) (s : S)
      → (update_on rt sv o s).1
        ≡ (sv.execute update_statement (cells_of o ++ int_cell o.id false ∷ []) s).1
  unfolding update_on
  update_on-state o s =
      elim (Outcome-cases
        (sv.execute update_statement (cells_of o ++ int_cell o.id false ∷ []) s).0) [
          | inl (r, e) ↦ rw e (if_state (r.affected == 0) _ _ _ refl refl)
          | inr (x, e) ↦ rw e
        ]

  pub update_on-view :
      (o : User) (s : S)
      → (update_on rt sv o s).0 ≡ ok tt
      → Perm (view (update_on rt sv o s).1) (map (replace user_schema o) (view s))
  unfolding update_on
  update_on-view o s h =
      elim (Outcome-cases
        (sv.execute update_statement (cells_of o ++ int_cell o.id false ∷ []) s).0) [
          | inl (r, e) ↦
              subst (λ t. Perm (view t) (map (replace user_schema o) (view s)))
                (sym (update_on-state o s)) (laws.update_view o s r e)
          | inr (x, e) ↦ let bad = rw e at h in cc
        ]

  pub erase_on-state :
      (id : ℕ) (s : S)
      → (erase_on rt sv id s).1 ≡ (sv.execute erase_statement (int_cell id false ∷ []) s).1
  unfolding erase_on
  erase_on-state id s =
      elim (Outcome-cases (sv.execute erase_statement (int_cell id false ∷ []) s).0) [
        | inl (r, e) ↦ rw e (if_state (r.affected == 1) _ _ _ refl refl)
        | inr (x, e) ↦ rw e
      ]

  pub erase_on-view :
      (id : ℕ) (s : S)
      → (erase_on rt sv id s).0 ≡ ok tt
      → Perm (view (erase_on rt sv id s).1) (rows_without id (view s))
  unfolding erase_on
  erase_on-view id s h =
      elim (Outcome-cases (sv.execute erase_statement (int_cell id false ∷ []) s).0) [
        | inl (r, e) ↦
            subst (λ t. Perm (view t) (rows_without id (view s))) (sym (erase_on-state id s))
              (laws.erase_view id s r e)
        | inr (x, e) ↦ let bad = rw e at h in cc
      ]

  pub find_on-state :
      {A : Type 0} (missing : A) (found : User → A) (id : ℕ) (s : S)
      → (find_on rt sv missing found id s).1
        ≡ (sv.execute find_statement (int_cell id false ∷ []) s).1
  unfolding find_on
  find_on-state missing found id s =
      elim (Outcome-cases (sv.execute find_statement (int_cell id false ∷ []) s).0) [
        | inl (r, e) ↦ rw e
        | inr (x, e) ↦ rw e
      ]

  first_row-Mem : (l : List User) (o : User) → first_row none (λ u. some u) l ≡ some o → Mem o l
  unfolding first_row
  first_row-Mem [] o e = cc
  first_row-Mem (u ∷ l) o e = subst (λ v. Mem v (u ∷ l)) (some_inj e) mem-cons_self

  pub find_on-Mem :
      (id : ℕ) (s : S) (o : User)
      → (find_on rt sv none (λ u. some u) id s).0 ≡ ok (some o)
      → Mem o (rows_with id (view s))
  unfolding find_on
  find_on-Mem id s o h =
      elim (Outcome-cases (sv.execute find_statement (int_cell id false ∷ []) s).0) [
        | inl (r, e) ↦
            let first = rw e at h in
            Perm.subset (laws.find_result id s r e) o (first_row-Mem r.rows o (ok_inj first))
        | inr (x, e) ↦ let bad = rw e at h in cc
      ]
