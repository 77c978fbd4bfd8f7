-- ===== src/Entities.antt =====
-- app/Entities: the user and the result of an operation.
pub mod OperationResult
pub mod User
