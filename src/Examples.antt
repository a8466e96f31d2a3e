-- ===== src/Examples.antt =====
-- Concrete runs of the theorems.
mod Documents
mod Positions
mod Revisions
mod Searches
pub mod Sources
pub mod Viewports
mod Programs
