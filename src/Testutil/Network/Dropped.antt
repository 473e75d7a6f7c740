-- ===== src/Testutil/Network/Dropped.antt =====
-- ExchangeWithRetry against a server that drops its first queries.
use dnshealth_exporter.Prelude.{
  ℕ, suc, ◌+◌, ◌/◌, ◌≡◌, refl, ap, ap₂, ◌∙◌, false, ◌&&◌, none, some, [], ◌∷◌, ltb, leb,
  if◌then◌else◌, arith,
}
use dnshealth_exporter.Text.{Text}
use dnshealth_exporter.Text.Equality.{==_iff, ==_refl}
use dnshealth_exporter.Dns.{Net, Reply, Outcome, History, exchanged, context_read, Query}
use dnshealth_exporter.Dns.Errors.{Error, ok, err}
use dnshealth_exporter.Retry.{exchange_with_retry}
use dnshealth_exporter.Retry.Laws.{exchange_with_retry_outcome}
use dnshealth_exporter.Testutil.Server.{TestServer, message, respond, handle}
use dnshealth_exporter.Testutil.Network.{
  DnsFixture, queries_to, find_server, counted, ClientErrors, received, ask, exchange_with,
  fixture_net,
}

-- A server that answers once it has dropped its first queries.
pub record Answers (srv : TestServer) : Type 0 where
  pub not_silent : srv.options.drop ≡ false
  pub not_garbled : srv.options.garbage ≡ false

-- With `k` queries counted before this one.
abbrev pub after_drops : ClientErrors → TestServer → Query → ℕ → Outcome
after_drops client srv q k =
    if leb srv.options.drop_first_n k then ok (respond srv q) else err client.timed_out

handle-dropping :
    (client : ClientErrors) (srv : TestServer) (q : Query) (k : ℕ)
    → Answers srv
    → received client (handle (record srv { query_count = k }) q).0 ≡ after_drops client srv q k
unfolding handle respond
handle-dropping client srv q k a =
    rw (a.not_silent, a.not_garbled) (dropped srv.options.drop_first_n (respond srv q))
  where
    dropped :
        (n : ℕ) (r : Reply)
        → received client (if ltb 0 n && leb (suc k) n then none else some (message r))
          ≡ (if leb n k then ok r else err client.timed_out)
    dropped n r = ground arith

pub exchange_with-dropping :
    (client : ClientErrors) (f : DnsFixture) (h : History) (q : Query) (timeout : ℕ) (addr : Text)
    (srv : TestServer)
    → find_server addr f ≡ some srv
    → Answers srv
    → exchange_with client f h q timeout addr
      ≡ after_drops client srv q (srv.query_count + queries_to srv.addr h)
unfolding exchange_with counted
exchange_with-dropping client f h q timeout addr srv e a =
    ap (ask client h q) e ∙ handle-dropping client srv q (srv.query_count + queries_to srv.addr h) a

-- The two attempts together.
abbrev retried : Outcome → Outcome → Outcome
retried (ok r) second = ok r
retried (err e) (ok r) = ok r
retried (err e) (err _) = err e

exchange_with_retry-retried :
    (net : Net) (timeout : ℕ) (q : Query) (addr : Text) (h : History)
    → net.context_done (exchanged q timeout addr ∷ h) ≡ false
    → (exchange_with_retry net timeout q addr h).0
      ≡ retried
          (net.exchange h q timeout addr)
          (net.exchange (context_read ∷ exchanged q timeout addr ∷ h) q (timeout / 2) addr)
exchange_with_retry-retried net timeout q addr h c =
    ground (arith, exchange_with_retry_outcome net timeout q addr h)

retried-dropped :
    (e : Error) (n k : ℕ) (r : Reply)
    → retried (if leb n k then ok r else err e) (if leb n (k + 1) then ok r else err e)
      ≡ (if leb n (k + 1) then ok r else err e)
retried-dropped e n k r = ground arith

find_server-addr :
    (addr : Text) (f : DnsFixture) (srv : TestServer)
    → find_server addr f ≡ some srv
    → srv.addr ≡ addr
unfolding find_server
find_server-addr addr [] srv e = cc
find_server-addr addr (first ∷ f) srv e =
    ground (arith, find_server-addr addr f srv, ==_iff first.addr addr)

queries_to-retry :
    (q : Query) (timeout : ℕ) (addr : Text) (h : History)
    → queries_to addr (context_read ∷ exchanged q timeout addr ∷ h) ≡ suc (queries_to addr h)
unfolding queries_to
queries_to-retry q timeout addr h = ground (arith, ==_refl addr)

-- An exchange with a retry against a server of a fixture that drops its first queries, and neither
-- all of them nor sends bytes that are no message, gives the server's message if at most one more
-- query is to be dropped than it has counted, and otherwise the error of the client's timeout: the
-- retry makes up for one dropped query and for no more.
pub exchange_with_retry-dropping :
    (client : ClientErrors) (f : DnsFixture) (fqdn resolve : Text → Text) (root : Text)
    (timeout : ℕ) (q : Query) (addr : Text) (srv : TestServer) (h : History)
    → find_server addr f ≡ some srv
    → Answers srv
    → (exchange_with_retry (fixture_net client f fqdn resolve root) timeout q addr h).0
      ≡ after_drops client srv q (srv.query_count + queries_to addr h + 1)
exchange_with_retry-dropping client f fqdn resolve root timeout q addr srv h e a =
    let n = srv.options.drop_first_n in
    let k = srv.query_count + queries_to addr h in
    let at = find_server-addr addr f srv e in
    let first : exchange_with client f h q timeout addr ≡ after_drops client srv q k =
      exchange_with-dropping client f h q timeout addr srv e a
      ∙ ap (λ t. after_drops client srv q (srv.query_count + queries_to t h)) at in
    let h2 = context_read ∷ exchanged q timeout addr ∷ h in
    let second : exchange_with client f h2 q (timeout / 2) addr ≡ after_drops client srv q (k + 1) =
      exchange_with-dropping client f h2 q (timeout / 2) addr srv e a
      ∙ ap (λ t. after_drops client srv q (srv.query_count + queries_to t h2)) at
      ∙ ap (after_drops client srv q) (omega (arith, queries_to-retry q timeout addr h)) in
    exchange_with_retry-retried (fixture_net client f fqdn resolve root) timeout q addr h refl
    ∙ ap₂ retried first second
    ∙ retried-dropped client.timed_out n k (respond srv q)
