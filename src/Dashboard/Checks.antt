-- ===== src/Dashboard/Checks.antt =====
-- demo/dashboard/panels_status.go: the checks of the status tables, and what their expressions name.
pub mod Parent
pub mod NameServers
pub mod Soa
pub mod Mx
pub mod Email
pub mod Vocabulary
