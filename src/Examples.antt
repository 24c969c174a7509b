-- ===== src/Examples.antt =====
-- The theorems at concrete inputs.
pub mod State
mod Oauth
mod Theft
mod Limits
mod Outbox
mod Roles
mod Lockout
mod Jwt
mod Endpoints
mod Steps
mod Feed
mod Joining
mod SignOut
mod Security
mod Routes
mod Grpc
mod Http
mod SignIn
mod Import
mod Config
mod Migrations
mod Replica
