-- ===== src/Service.antt =====
-- internal/service: the use cases, over the repository's operations.
pub mod Words
pub mod Roles
pub mod Errors
pub mod Identity
pub mod Management
pub mod Admin
pub mod Operator
pub mod Access
pub mod Oauth
