-- ===== src/Testutil/Network.antt =====
-- testutil/fixture.go: the servers of a fixture as the network that the probers see. The counter of
-- a server is read off the history: what it had counted before, and the exchanges with its address.
pub mod Delegations
pub mod Dropped
use dnshealth_exporter.Prelude.{
  ℕ, suc, ◌+◌, Bool, true, false, Option, none, some, List, [], ◌∷◌, ◌++◌, if◌then◌else◌,
}
use dnshealth_exporter.Text.{Text, ◌==◌}
use dnshealth_exporter.Dns.{Net, Rr, Outcome, History, exchanged, clock_read, context_read, Query}
use dnshealth_exporter.Dns.Errors.{Error, ok, err}
use dnshealth_exporter.Testutil.Server.{
  TestServer, ServerOptions, no_options, Wire, random_bytes, message, handle,
}

-- DNSFixture, as far as the servers go.
abbrev pub DnsFixture : Type 0
DnsFixture = List TestServer

-- Server, ServerWithOptions and ReferralServer.
unfoldable pub server : Text → List Rr → DnsFixture → DnsFixture
server addr records f =
    f
    ++ record {
      addr = addr;
      records = records;
      referral = false;
      options = no_options;
      query_count = 0;
    }
      ∷ []

unfoldable pub server_with_options : Text → ServerOptions → List Rr → DnsFixture → DnsFixture
server_with_options addr opts records f =
    f
    ++ record { addr = addr; records = records; referral = false; options = opts; query_count = 0 }
      ∷ []

unfoldable pub referral_server : Text → List Rr → DnsFixture → DnsFixture
referral_server addr records f =
    f
    ++ record {
      addr = addr;
      records = records;
      referral = true;
      options = no_options;
      query_count = 0;
    }
      ∷ []

-- The exchanges with an address.
unfoldable pub queries_to : Text → History → ℕ
unfolding ◌==◌
queries_to addr [] = 0
queries_to addr (exchanged q timeout to ∷ h) =
    if to == addr then suc (queries_to addr h) else queries_to addr h
queries_to addr (clock_read ∷ h) = queries_to addr h
queries_to addr (context_read ∷ h) = queries_to addr h

-- The server that listens at an address.
unfoldable pub find_server : Text → DnsFixture → Option TestServer
unfolding ◌==◌
find_server addr [] = none
find_server addr (srv ∷ f) = if srv.addr == addr then some srv else find_server addr f

unfoldable pub counted : History → TestServer → TestServer
unfolding queries_to
counted h srv = record srv { query_count = srv.query_count + queries_to srv.addr h }

-- QueryCount
unfoldable pub query_count : Text → History → DnsFixture → ℕ
unfolding find_server counted
query_count addr h f = elim (find_server addr f) [
  | none ↦ 0
  | some srv ↦ (counted h srv).query_count
]

-- What the client of miekg/dns makes of an answer that does not come, of eight bytes that are no
-- message, and of an address where nobody listens.
pub record ClientErrors : Type 0 where
  pub timed_out : Error
  pub garbled : Error
  pub refused : Error

module _ (client : ClientErrors) where
  abbrev pub received : Option Wire → Outcome
  received none = err client.timed_out
  received (some random_bytes) = err client.garbled
  received (some (message r)) = ok r

  abbrev pub ask : History → Query → Option TestServer → Outcome
  ask h q none = err client.refused
  ask h q (some srv) = received (handle (counted h srv) q).0

  unfoldable pub exchange_with : DnsFixture → History → Query → ℕ → Text → Outcome
  unfolding find_server handle counted
  exchange_with f h q timeout addr = ask h q (find_server addr f)

  -- The network of a fixture; its contexts never end.
  abbrev pub fixture_net :
      DnsFixture → (fqdn resolve_address : Text → Text) → (root_server : Text) → Net
  fixture_net f fqdn resolve_address root_server = record {
    exchange = exchange_with f;
    clock = λ h. 0;
    context_done = λ h. false;
    fqdn = fqdn;
    resolve_address = resolve_address;
    root_server = root_server;
  }
