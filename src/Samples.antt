-- ===== src/Samples.antt =====
-- Tests of the definitions at small inputs, and the theorems applied to such inputs.
mod Graphs
mod Diffs
mod Schedules
mod Editors
mod Labels
mod Creates
mod Sessions
mod Flows
mod Loads
mod Routes
mod Shells
mod Watches
