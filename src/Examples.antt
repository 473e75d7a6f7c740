-- ===== src/Examples.antt =====
-- The code run on small inputs, and the theorems applied to such inputs.
mod Spf
mod Names
mod Settings
mod Network
mod Process
mod Fixture
mod Gathered
mod Metrics
mod Dashboard
mod Asserted
