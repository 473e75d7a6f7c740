-- ===== src/Retry.antt =====
-- prober/retry.go: ExchangeWithRetry.
pub mod Laws
use dnshealth_exporter.Prelude.{ℕ, ◌/◌, Bool, true, false, ◌>>=◌, return, if◌then◌else◌}
use dnshealth_exporter.Text.{Text}
use dnshealth_exporter.Dns.{Net, Query, Outcome, M, exchange_context, context_ended}
use dnshealth_exporter.Dns.Errors.{Error, ok, err}

module _ (net : Net) where
  -- The second exchange has half the timeout; if it fails too the first error is returned.
  retry_once : ℕ → Query → Text → Error → M Outcome
  unfolding exchange_context
  retry_once timeout q server e = do
    second ← exchange_context net (timeout / 2) q server
    return (elim second [ ok r ↦ ok r | err _ ↦ err e ])

  unless_ended : ℕ → Query → Text → Error → Bool → M Outcome
  unless_ended timeout q server e true = return (err e)
  unless_ended timeout q server e false = retry_once timeout q server e

  after_first : ℕ → Query → Text → Outcome → M Outcome
  unfolding context_ended
  after_first timeout q server (ok r) = return (ok r)
  after_first timeout q server (err e) = do
    ended ← context_ended net
    unless_ended timeout q server e ended

  unfoldable pub exchange_with_retry : ℕ → Query → Text → M Outcome
  unfolding after_first unless_ended retry_once exchange_context
  exchange_with_retry timeout q server = do
    first ← exchange_context net timeout q server
    after_first timeout q server first
