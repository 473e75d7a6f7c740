-- ===== src/Examples/Fixture.antt =====
-- The test servers on small zones.
use dnshealth_exporter.Prelude.{
  ◌+◌, ◌≡◌, refl, Bool, true, false, some, List, [], ◌∷◌, ◌++◌, if◌then◌else◌, ltb, any, eqb,
}
use dnshealth_exporter.Text.{Text, bytes, split}
use dnshealth_exporter.Dns.{Net, Rr, a, ns, question, type_a}
use dnshealth_exporter.Dns.Errors.{net_error, plain, ok, err}
use dnshealth_exporter.Resolver.{ns_targets, referral_glue, first_glued}
use dnshealth_exporter.Resolver.Delegation.{DelegationResult, extract_delegation, walk_delegation}
use dnshealth_exporter.Resolver.Delegation.Chains.{walk_delegation-Chain}
use dnshealth_exporter.Retry.{exchange_with_retry}
use dnshealth_exporter.Cycle.{augment}
use dnshealth_exporter.Cycle.Nameservers.{build_initial_nameservers, hosts_needing_augmentation}
use dnshealth_exporter.Testutil.Records.{first_serial, soa_record}
use dnshealth_exporter.Testutil.Server.{TestServer, no_options, find_referral, glue_of, matched}
use dnshealth_exporter.Testutil.Server.Referral.{enclosing, nearest, find_referral-nearest}
use dnshealth_exporter.Testutil.Network.{
  DnsFixture, find_server, queries_to, ClientErrors, fixture_net,
}
use dnshealth_exporter.Testutil.Network.Dropped.{after_drops, exchange_with_retry-dropping}
use dnshealth_exporter.Testutil.Network.Delegations.{
  IsHealthy, Leads, Leads-Chain, holds, points, walk_delegation-fixture,
}
use dnshealth_exporter.Testutil.Probe.{discover}
use dnshealth_exporter.Testutil.Probe.Discovery.{discover-runner}

-- A serial is drawn for each record, and an option may replace it.
second_serial : (soa_record (λ t. t) (λ t. t) (bytes "a.") [] first_serial).1 ≡ 1_000_001
unfolding soa_record
second_serial = refl

abbrev top_records : List Rr
top_records = ns (bytes "com.") (bytes "a.nic.") ∷ a (bytes "a.nic.") (bytes "192.0.2.2") ∷ []

abbrev com_records : List Rr
com_records =
    ns (bytes "example.com.") (bytes "ns1.example.com.")
    ∷ ns (bytes "example.com.") (bytes "ns2.example.net.")
    ∷ a (bytes "ns1.example.com.") (bytes "192.0.2.3")
    ∷ []

abbrev parent : Text → List Rr → TestServer
parent addr records = record {
  addr = addr;
  records = records;
  referral = true;
  options = no_options;
  query_count = 1;
}

abbrev slow : TestServer
slow = record {
  addr = bytes "192.0.2.3:53";
  records = [];
  referral = false;
  options = record no_options { drop_first_n = 1 };
  query_count = 0;
}

abbrev top : TestServer
top = parent (bytes "192.0.2.1:53") top_records

abbrev com_server : TestServer
com_server = parent (bytes "192.0.2.2:53") com_records

abbrev fixture : DnsFixture
fixture = top ∷ com_server ∷ slow ∷ []

abbrev client : ClientErrors
client = record { timed_out = net_error true; garbled = plain; refused = net_error false }

abbrev to_fqdn : Text → Text
to_fqdn t = t ++ bytes "."

abbrev at_port : Text → Text
at_port ip = ip ++ bytes ":53"

abbrev zone : Text
zone = bytes "example.com"

abbrev delegation : DelegationResult
delegation =
    extract_delegation (bytes "192.0.2.2:53")
      (ns (bytes "example.com.") (bytes "ns1.example.com.")
        ∷ ns (bytes "example.com.") (bytes "ns2.example.net.")
        ∷ [])
      (glue_of
        (ns (bytes "example.com.") (bytes "ns1.example.com.")
          ∷ ns (bytes "example.com.") (bytes "ns2.example.net.")
          ∷ [])
        com_records)

parent-IsHealthy : (addr : Text) (records : List Rr) → IsHealthy (parent addr records)
parent-IsHealthy addr records = record {
  answering = record { not_silent = refl; not_garbled = refl };
  no_drops = refl;
  no_rcode = refl;
}

abbrev pub network : Net
network = fixture_net client fixture to_fqdn at_port (bytes "192.0.2.1:53")

abbrev lead :
    Leads client fixture to_fqdn at_port
      (bytes "192.0.2.1:53")
      5
      (bytes "example.com.")
      1
      (bytes "192.0.2.1:53")
      delegation
unfolding find_server matched find_referral glue_of first_glued referral_glue ns_targets
lead =
    points top (ns (bytes "com.") (bytes "a.nic.")) [] (a (bytes "a.nic.") (bytes "192.0.2.2") ∷ [])
      b'1' (bytes "92.0.2.2:53") refl (parent-IsHealthy top.addr top_records) refl refl refl refl
      (holds com_server (ns (bytes "example.com.") (bytes "ns1.example.com."))
        (ns (bytes "example.com.") (bytes "ns2.example.net.") ∷ []) refl
        (parent-IsHealthy com_server.addr com_records) refl)

walk_delegation-fixture_example :
    (walk_delegation network 5 zone []).0 ≡ (if ltb 1 10 then ok delegation else err plain)
walk_delegation-fixture_example =
    walk_delegation-fixture client fixture to_fqdn at_port (bytes "192.0.2.1:53") 5 zone 1
      delegation [] lead

find_referral-nearest_example :
    find_referral com_records (bytes "www.example.com.")
    ≡ nearest com_records (enclosing (split b'.' (bytes "www.example.com.")))
find_referral-nearest_example = find_referral-nearest com_records (bytes "www.example.com.")

slow-found : find_server (bytes "192.0.2.3:53") fixture ≡ some slow
unfolding find_server
slow-found = refl

exchange_with_retry-dropping_example :
    (exchange_with_retry network 10 (question zone type_a) (bytes "192.0.2.3:53") []).0
    ≡ after_drops client slow (question zone type_a) (0 + queries_to (bytes "192.0.2.3:53") [] + 1)
exchange_with_retry-dropping_example =
    exchange_with_retry-dropping client fixture to_fqdn at_port (bytes "192.0.2.1:53") 10
      (question zone type_a) (bytes "192.0.2.3:53") slow [] slow-found
      (record { not_silent = refl; not_garbled = refl })

walk_delegation-Chain_example :
    (walk_delegation network 5 zone []).0 ≡ (if ltb 1 10 then ok delegation else err plain)
walk_delegation-Chain_example = walk_delegation-Chain network 5 zone 1 delegation [] (
    Leads-Chain client fixture to_fqdn at_port (bytes "192.0.2.1:53") 5 (bytes "example.com.") 1
      (bytes "192.0.2.1:53") delegation lead)

abbrev is_ipv6 : Text → Bool
is_ipv6 = any (eqb b':')

discover-runner_example :
    discover network 5 is_ipv6 delegation.ns_records []
    ≡ augment network 5
        (build_initial_nameservers delegation.ns_records)
        (hosts_needing_augmentation is_ipv6 delegation.ns_records)
        []
discover-runner_example = discover-runner network 5 is_ipv6 delegation.ns_records []
