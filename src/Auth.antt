-- ===== src/Auth.antt =====
-- backend/app/auth: accounts, tokens and the sessions behind refresh tokens.
pub mod Store
pub mod Tokens
pub mod Policy
pub mod Keys
pub mod Settings
pub mod Service
pub mod Sessions
pub mod Steps
pub mod Rotation
pub mod Accounts
pub mod Failures
pub mod RoundTrip
mod Tests
