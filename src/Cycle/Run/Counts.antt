-- ===== src/Cycle/Run/Counts.antt =====
-- What a cycle leaves in the delegation cache and in the counters of its lookups.
use dnshealth_exporter.Text.{Text}
use dnshealth_exporter.Cache
