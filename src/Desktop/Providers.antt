-- ===== src/Desktop/Providers.antt =====
-- desktop-ui/src/pages/Providers.tsx: the form that creates and edits a provider.
pub mod Fields
pub mod Submit
pub mod RoundTrip
pub mod Guards
mod Tests
