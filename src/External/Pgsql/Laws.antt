-- ===== src/External/Pgsql/Laws.antt =====
-- What the generated code relies on of ODB's runtime for PostgreSQL.
use ccfolio.Common.{ℕ, ◌≡◌, ◌≤◌, ◌<◌, false, true, length, take}
use ccfolio.Common.Text.{Str}
use ccfolio.External.Pgsql.{Buffer, Runtime}

pub record RuntimeLaws (rt : Runtime) : Type 0 where
  -- a buffer whose capacity has not changed was not reallocated
  pub image_stays :
      (b : Buffer) (v : Str)
      → (rt.set_image b v).0.capacity ≡ b.capacity
      → (rt.set_image b v).0.address ≡ b.address
  pub image_text : (b : Buffer) (v : Str) → take (rt.set_image b v).1 (rt.set_image b v).0.bytes ≡ v
  pub image_null : (b : Buffer) (v : Str) → (rt.set_image b v).2 ≡ false
  pub image_id : (id : ℕ) → rt.set_id_image id ≡ (id, false)
  pub value_id : (id : ℕ) → rt.set_id_value id false ≡ id
  pub fetched_id : (id : ℕ) → rt.fetch_id id ≡ (id, false)
  pub capacity_grown : (b : Buffer) (n : ℕ) → n ≤ (rt.set_capacity b n).capacity
  -- a column is copied into the storage it is bound to
  pub fetched_address :
      (n : ℕ) (v : Str) (b : Buffer) → (rt.fetch_text n v b).buffer.address ≡ b.address
  pub fetched_capacity :
      (n : ℕ) (v : Str) (b : Buffer) → (rt.fetch_text n v b).buffer.capacity ≡ b.capacity
  pub fetched_size : (n : ℕ) (v : Str) (b : Buffer) → (rt.fetch_text n v b).size ≡ length v
  -- it is truncated where it is longer than the storage, and read back where it is not
  pub fetched_truncated :
      (n : ℕ) (v : Str) (b : Buffer) → n < length v → (rt.fetch_text n v b).truncated ≡ true
  pub fetched_whole :
      (n : ℕ) (v : Str) (b : Buffer) → length v ≤ n → (rt.fetch_text n v b).truncated ≡ false
  pub fetched_value :
      (n : ℕ) (v : Str) (b : Buffer)
      → length v ≤ n
      → let f = rt.fetch_text n v b in rt.set_value f.buffer f.size f.is_null ≡ v
