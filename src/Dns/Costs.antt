-- ===== src/Dns/Costs.antt =====
-- Bounds on the queries of a computation, and the rules for its parts.
use dnshealth_exporter.Prelude.{ℕ, ◌+◌, ◌≤◌, arith}
use dnshealth_exporter.Text.{Text}
use dnshealth_exporter.Dns.{Net, Query, M, History, exchange_context, context_ended, time_now}
use dnshealth_exporter.Dns.Queries.{queries}

-- At most `b` queries, whatever happened before.
abbrev pub Costs : {A : Type 0} → ℕ → M A → Type 0
Costs b m = (h : History) → queries (m h).1 ≤ queries h + b

module _ (net : Net) where
  pub Costs-exchange_context :
      (timeout : ℕ) (q : Query) (server : Text) → Costs 1 (exchange_context net timeout q server)
  unfolding exchange_context
  Costs-exchange_context timeout q server h = omega arith

  pub Costs-context_ended : Costs 0 (context_ended net)
  unfolding context_ended
  Costs-context_ended h = omega arith

  pub Costs-time_now : Costs 0 (time_now net)
  unfolding time_now
  Costs-time_now h = omega arith
