-- ===== src/Testutil.antt =====
-- testutil: the in-process servers of the integration tests, and the assertions on metrics.
pub mod Records
pub mod Server
pub mod Network
pub mod Probe
pub mod Assertions
