-- ===== src/Dashboard.antt =====
-- demo/dashboard: the generator of the Grafana dashboard, as far as its own code goes. The builders
-- of the Grafana SDK only collect what they are given.
pub mod Layout
pub mod Status
pub mod Checks
pub mod Records
pub mod Operator
