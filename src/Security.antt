-- ===== src/Security.antt =====
-- src/Security: passwords and tokens.
pub mod Password
pub mod Token
