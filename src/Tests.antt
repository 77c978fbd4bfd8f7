-- ===== src/Tests.antt =====
-- Stand-ins for the libraries, a database in memory, and the theorems run on them.
pub mod Libraries
pub mod Database
pub mod Scenario
pub mod Session
pub mod Storage
pub mod Tokens
pub mod Answers
pub mod Network
pub mod LogFile
pub mod Main
pub mod Race
pub mod Postgres
pub mod Generated
pub mod Requests
