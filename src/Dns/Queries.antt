-- ===== src/Dns/Queries.antt =====
-- How many queries a history holds.
use dnshealth_exporter.Prelude.{ℕ, suc, [], ◌∷◌}
use dnshealth_exporter.Dns.{History, exchanged, clock_read, context_read}

abbrev pub queries : History → ℕ
queries [] = 0
queries (exchanged q t s ∷ h) = suc (queries h)
queries (clock_read ∷ h) = queries h
queries (context_read ∷ h) = queries h
