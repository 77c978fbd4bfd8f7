-- ===== src/Tests/Database.antt =====
-- A table of users in memory, with a switch that makes queries fail.
use ccfolio.Common.{ℕ, suc, ◌≡◌, refl, subst, List, [], ◌∷◌, ◌++◌, Bool, true, false, map, not}
use ccfolio.Common.Text.{Str, text}
use ccfolio.Common.Effect.{Outcome, ok, throw, odb_error}
use ccfolio.Common.Effect.Rules.{ok_inj}
use ccfolio.External.Odb.{Odb}
use ccfolio.External.Odb.Laws.{OdbLaws, select, replace}
use ccfolio.Entities.User.{User}
use ccfolio.Repositories.UserRepository.Lookup.{user_schema, named}
use ccfolio.Repositories.UserRepository.Registration.{with_id}
use mathlib.Core.List.{Mem, mem-cons_self, Perm}
use mathlib.Core.List.Perm

pub record Table : Type 0 where
  pub stored : List User
  pub seen : List User
  pub next : ℕ
  pub query_down : Bool

unfoldable pub first_of : List User → Outcome User
first_of [] = throw (odb_error (text "object not persistent"))
first_of (user ∷ _) = ok user

unfoldable pub run_query : Bool → List User → Outcome (List User)
run_query true l = throw (odb_error (text "server closed the connection"))
run_query false l = ok l

abbrev pub odb : Odb User ℕ Str
odb = record {
  Db = Table;
  begin = λ d. (ok tt, record d { seen = d.stored });
  commit = λ d. (ok tt, record d { stored = d.seen });
  rollback = λ d. d;
  persist =
      λ user d. (ok tt, record d { seen = d.seen ++ with_id d.next user ∷ []; next = suc d.next });
  load = λ id d. (first_of (select (user_schema.has_id id) d.seen), d);
  update = λ user d. (ok tt, record d { seen = map (replace user_schema user) d.seen });
  erase =
      λ id d. (ok tt, record d { seen = select (λ user. not (user_schema.has_id id user)) d.seen });
  query_all = λ d. (ok d.seen, d);
  query = λ username d. (run_query d.query_down (named username d.seen), d);
}

pub first_of-Mem : (l : List User) (user : User) → first_of l ≡ ok user → Mem user l
unfolding first_of
first_of-Mem [] user e = cc
first_of-Mem (u ∷ l) user e = subst (λ v. Mem v (u ∷ l)) (ok_inj e) mem-cons_self

pub run_query-Perm : (b : Bool) (l r : List User) → run_query b l ≡ ok r → Perm r l
unfolding run_query
run_query-Perm true l r e = cc
run_query-Perm false l r e = subst (λ v. Perm v l) (ok_inj e) (Perm.refl l)

unfoldable pub odb_laws : OdbLaws odb user_schema
unfolding run_query
odb_laws = record {
  rows = λ d. d.stored;
  view = λ d. d.seen;
  begin_rows = λ d. refl;
  begin_view = λ d e. refl;
  commit_ok = λ d e. refl;
  commit_failed = λ d t. let e = t.1 in cc;
  rollback_rows = λ d. refl;
  persist_rows = λ user d. refl;
  persist_view = λ user d e. (d.next, refl);
  load_rows = λ id d. refl;
  load_view = λ id d. refl;
  load_result = λ id d user e. first_of-Mem _ user e;
  update_rows = λ user d. refl;
  update_view = λ user d e. Perm.refl _;
  erase_rows = λ id d. refl;
  erase_view = λ id d e. Perm.refl _;
  query_all_rows = λ d. refl;
  query_all_view = λ d. refl;
  query_all_result = λ d r e. run_query-Perm false d.seen r e;
  query_rows = λ username d. refl;
  query_view = λ username d. refl;
  query_result = λ username d r e. run_query-Perm d.query_down _ r e;
}
