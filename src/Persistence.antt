-- ===== src/Persistence.antt =====
-- app/Entities/odb: the code that the ODB compiler has generated for the class `User`.
pub mod Texts
pub mod Image
pub mod Statements
pub mod Fetch
pub mod Traits
pub mod Table
