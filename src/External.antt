-- ===== src/External.antt =====
-- What the program calls and does not implement: its libraries, the database, the clock and the
-- random device, as parameters.
pub mod World
pub mod Argon2
pub mod Jwt
pub mod Json
pub mod Odb
pub mod Asio
pub mod Beast
pub mod Pgsql
pub mod Files
