-- ===== src/Handlers.antt =====
-- src/handlers.rs: the OIDC endpoints.
pub mod State
pub mod Messages
pub mod Scopes
pub mod Validation
pub mod Issue
pub mod Authorize
pub mod Reauth
pub mod Token
pub mod Pkce
