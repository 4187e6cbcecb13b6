-- ===== src/Desktop/Models.antt =====
-- desktop-ui/src/pages/Models.tsx: the form that creates and edits a model. Its prices go through
-- `microToDisplay` and `displayToMicro` of desktop-ui/src/lib/format.ts, which are those of
-- web/src/lib/money.ts.
pub mod Fields
pub mod Submit
pub mod Lists
pub mod Stored
pub mod Saved
mod Tests
