-- ===== src/Tests.antt =====
-- Runs of the definitions on concrete inputs, with the theorems applied to them.
pub mod Data
pub mod Administrators
pub mod Console
pub mod Startup
pub mod Store
pub mod Texts
pub mod Settings
pub mod App
pub mod Checks
pub mod Endpoints
pub mod Tokens
pub mod Templates
