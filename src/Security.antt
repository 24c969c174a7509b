-- ===== src/Security.antt =====
-- internal/security: stored passwords, identifiers and random tokens.
pub mod Base64
pub mod Password
pub mod Random
pub mod Uuid
