-- ===== src/Http.antt =====
-- internal/transport/httpapi: what the handlers decide by themselves.
pub mod Message
pub mod Address
pub mod Forms
pub mod Browser
pub mod Account
pub mod AdminHandlers
pub mod TokenEndpoint
pub mod OauthHandlers
pub mod SyncHandlers
pub mod Routes
