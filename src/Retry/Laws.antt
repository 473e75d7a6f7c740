-- ===== src/Retry/Laws.antt =====
-- What one exchange with a retry does, on each of its branches.
use dnshealth_exporter.Prelude.{ℕ, ◌+◌, ◌/◌, ◌≤◌, true, false, ◌≡◌, arith, ◌∷◌}
use dnshealth_exporter.Text.{Text}
use dnshealth_exporter.Dns.{Net, Query, History, exchanged, context_read}
use dnshealth_exporter.Dns.Errors.{ok, err}
use dnshealth_exporter.Dns.Queries.{queries}
use dnshealth_exporter.Retry.{exchange_with_retry}

module _ (net : Net) (timeout : ℕ) (q : Query) (server : Text) (h : History) where
  -- An exchange with a retry sends one query or two, whatever the server answers.
  pub queries-exchange_with_retry :
      (queries h + 1 ≤ queries (exchange_with_retry net timeout q server h).1)
      × (queries (exchange_with_retry net timeout q server h).1 ≤ queries h + 2)
  unfolding exchange_with_retry
  queries-exchange_with_retry = ground arith

  -- An exchange with a retry returns the answer to its query if there is one. Otherwise it asks again
  -- with half the timeout, unless the context has ended, and returns the answer to that. With no
  -- answer it returns the error of the first query.
  pub exchange_with_retry_outcome :
      let h1 = exchanged q timeout server ∷ h in
      let h2 = context_read ∷ h1 in
      (exchange_with_retry net timeout q server h).0 ≡ elim (net.exchange h q timeout server) [
        | ok r ↦ ok r
        | err e ↦ elim (net.context_done h1) [
          | true ↦ err e
          | false ↦ elim (net.exchange h2 q (timeout / 2) server) [ ok r ↦ ok r | err _ ↦ err e ]
        ]
      ]
  unfolding exchange_with_retry
  exchange_with_retry_outcome = ground arith
