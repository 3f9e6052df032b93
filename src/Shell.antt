-- ===== src/Shell.antt =====
-- What surrounds the pages (internal/web/static/base.js): signing in, the interface mode, the jump
-- search and the order of steps.
pub mod Access
pub mod Jump
pub mod Dialogs
pub mod Chrome
pub mod Route
