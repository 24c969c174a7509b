-- ===== src/Repo.antt =====
-- internal/repository/postgres: queries and transactions, a module for each file.
pub mod Tables
pub mod Events
pub mod Oauth
pub mod Identity
pub mod Passwords
pub mod Admin
pub mod Management
pub mod Maintenance
pub mod Keys
pub mod Outbox
pub mod Clients
pub mod Lockout
pub mod Tokens
pub mod Replica
