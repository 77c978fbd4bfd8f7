-- ===== src/Repositories.antt =====
-- app/Repositories: entities in the database.
pub mod OdbRepository
pub mod UserRepository
