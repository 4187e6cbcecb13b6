-- ===== src/Web.antt =====
-- The control panel (web/): its server-side session, its error handling and its server actions.
pub mod I18n
pub mod Session
pub mod Action
pub mod Client
pub mod Errors
pub mod Form
pub mod Actions
pub mod Login
pub mod Writes
pub mod Samples
mod Tests
