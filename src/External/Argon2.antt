-- ===== src/External/Argon2.antt =====
-- libargon2 and the generator of the C++ library.
use ccfolio.Common.{ℕ, ◌<◌, ◌≡◌, List, length, All}

-- `argon2i_hash_raw(t_cost, m_cost, parallelism, pwd, salt, hash, hashlen)`: the return code and what
-- is left in the buffer. `uniform seed i` is the i-th draw of `std::uniform_int_distribution<>(0, 255)`
-- from a `std::mt19937` seeded with `seed`.
pub record Argon2 : Type 0 where
  pub argon2i_hash_raw : ℕ → ℕ → ℕ → List ℕ → List ℕ → ℕ → ℕ × List ℕ
  pub uniform : ℕ → ℕ → ℕ

-- The buffer is a `std::vector<uint8_t>` of the length asked for.
pub record Argon2Laws (lib : Argon2) : Type 0 where
  pub buffer_bytes :
      (t m p : ℕ) (password salt : List ℕ) (size : ℕ)
      → All (λ b. b < 256) (lib.argon2i_hash_raw t m p password salt size).1
  pub buffer_length :
      (t m p : ℕ) (password salt : List ℕ) (size : ℕ)
      → length (lib.argon2i_hash_raw t m p password salt size).1 ≡ size
