-- ===== src/Desktop/Viewer.antt =====
-- `TraceViewer` of desktop-ui/src/pages/TraceViewer.tsx as a state machine. An event is a click, a
-- new list of rows, or the answer to one of the requests under way, which come in any order. An
-- answer and the callbacks that it completes are one step, and so are a change of state and the
-- effects that it triggers.
pub mod Page
pub mod Steps
pub mod Window
pub mod Answers
pub mod Guarded
pub mod Verdicts
pub mod Invariant
pub mod Shown
pub mod Settling
pub mod Closed
mod Tests
