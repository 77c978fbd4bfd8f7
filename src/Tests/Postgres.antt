-- ===== src/Tests/Postgres.antt =====
-- A runtime whose buffers grow by moving to the next address, and a connection on it.
pub mod Executed
pub mod Answers
pub mod Connected
use ccfolio.Common.{
  ℕ, zero, suc, ◌∙◌, ◌≡◌, ◌≢◌, ◌≤◌, ◌<◌, refl, ap, [], ◌∷◌, List, Bool, true, false, ltb, leb,
  arith, Bool-cases, if◌then◌else◌, length, take,
}
use ccfolio.Common.Text.{Str, text}
use ccfolio.Common.Effect.{odb_error}
use ccfolio.External.Pgsql.{Buffer, Runtime}
use ccfolio.External.Pgsql.Laws.{RuntimeLaws}
use ccfolio.Persistence.Image.{Column, Image}
use ccfolio.Persistence.Statements.{Binding, Statements}
use ccfolio.Persistence.Statements.Fresh.{Fresh, IsFresh}
use ccfolio.Persistence.Traits.Found.{IsReady}

abbrev pub grown : Buffer → ℕ → Buffer
grown b n =
    if leb n b.capacity
    then b
    else record { address = suc b.address; capacity = n; bytes = b.bytes }

abbrev pub runtime : Runtime
runtime = record {
  set_image = λ b v. (record (grown b (length v)) { bytes = v }, length v, false);
  set_value = λ b size null. take size b.bytes;
  set_id_image = λ id. (id, false);
  set_id_value = λ id null. id;
  set_capacity = grown;
  fetch_text = λ n v b. record {
    buffer = record b { bytes = take n v };
    size = length v;
    is_null = false;
    truncated = ltb n (length v);
  };
  fetch_id = λ id. (id, false);
  object_not_persistent = odb_error (text "object not persistent");
  object_already_persistent = odb_error (text "object already persistent");
}

take_all : {A : Type 0} (l : List A) → take (length l) l ≡ l
take_all [] = refl
take_all (a ∷ l) = ap (λ r. a ∷ r) (take_all l)

take_none : {A : Type 0} (n : ℕ) → take {A = A} n [] ≡ []
take_none zero = refl
take_none (suc n) = refl

take_twice : {A : Type 0} (n : ℕ) (l : List A) → length l ≤ n → take n l ≡ l
take_twice n [] h = take_none n
take_twice zero (a ∷ l) h = absurd (omega arith)
take_twice (suc n) (a ∷ l) h = ap (λ r. a ∷ r) (take_twice n l (omega arith))

grown_stays :
    (b : Buffer) (n : ℕ) → (grown b n).capacity ≡ b.capacity → (grown b n).address ≡ b.address
grown_stays b n e = ground arith

pub runtime_laws : RuntimeLaws runtime
runtime_laws = record {
  image_stays = λ b v e. grown_stays b (length v) e;
  image_text = λ b v. take_all v;
  image_null = λ b v. refl;
  image_id = λ id. refl;
  value_id = λ id. refl;
  fetched_id = λ id. refl;
  capacity_grown = λ b n. ground arith;
  fetched_address = λ n v b. refl;
  fetched_capacity = λ n v b. refl;
  fetched_size = λ n v b. refl;
  fetched_truncated = λ n v b h. ground arith;
  fetched_whole = λ n v b h. ground arith;
  fetched_value = λ n v b h. ap (take (length v)) (take_twice n v h) ∙ take_all v;
}

-- The statements of a new connection, whose bindings have never been made.
abbrev pub small : ℕ → Column
small address = record {
  value = record { address = address; capacity = 4; bytes = [] };
  size = 0;
  null = false;
}

abbrev pub unbound : Binding
unbound = record { binds = []; version = 0; bound_to = 0 }

abbrev pub new_statements : Statements
new_statements = record {
  image = record {
    id_value = 0;
    id_null = false;
    username = small 100;
    password_hash = small 200;
    salt = small 300;
    version = 0;
  };
  insert_binding = unbound;
  update_binding = unbound;
  select_binding = unbound;
  id_image = record { id_value = 0; id_null = false; version = 0 };
  id_binding = unbound;
  update_id_version = 0;
  truncated = record { username = false; password_hash = false; salt = false };
  delayed = [];
  locked = false;
}

pub new_statements-IsReady : IsReady new_statements
new_statements-IsReady = record {
  fresh = record {
    inserts = record { past = omega arith; points = λ h. absurd (h refl) };
    updates = record { past = omega arith; points = λ h. absurd (h refl) };
    selects = record { past = omega arith; points = λ h. absurd (h refl) };
    keys = record { past = omega arith; points = λ h. absurd (h refl) };
    uncounted = refl;
  };
  unlocked = refl;
  nothing_delayed = refl;
}
