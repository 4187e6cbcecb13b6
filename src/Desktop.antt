-- ===== src/Desktop.antt =====
-- desktop-ui/src: the parts of the desktop front end besides the trace analysis and the JSON tree.
pub mod Client
pub mod Saving
pub mod Providers
pub mod Models
pub mod Logs
pub mod Routes
pub mod Viewer
pub mod Sessions
