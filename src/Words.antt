-- ===== src/Words.antt =====
-- The texts of the console (internal/web/static/base.js): `DICT`, `STATE`, `TYPEL` and the functions
-- that look them up.
pub mod Phrase
pub mod Polish
pub mod English
pub mod Labels
pub mod Complete
pub mod Plurals
pub mod Errors
