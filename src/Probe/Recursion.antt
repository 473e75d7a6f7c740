-- ===== src/Probe/Recursion.antt =====
-- prober/recursion.go: does a nameserver offer recursion?
pub mod Counts
use dnshealth_exporter.Prelude.{ℕ, ◌-◌, Bool, true, false, some, List, [], ◌∷◌, ◌>>=◌, return}
use dnshealth_exporter.Text.{Text, bytes}
use dnshealth_exporter.Dns.{Net, Query, Outcome, M, type_soa, time_now}
use dnshealth_exporter.Dns.Errors.{is_timeout, ok, err}
use dnshealth_exporter.Retry.{exchange_with_retry}
use dnshealth_exporter.Resolver.{Nameserver}
use dnshealth_exporter.Probe.{ProbeResult, bool_to_float, for_each}

-- The query with the recursion flag set.
abbrev pub recursive_query : Text → Query
recursive_query name = record { name = name; qtype = type_soa; recursion_desired = some true }

unfoldable pub recursion_result : Text → Nameserver → ℕ → Outcome → ProbeResult
unfolding is_timeout
recursion_result zone ns elapsed (err e) = record {
  zone = zone;
  check = bytes "recursion";
  nameserver = ns.hostname;
  ip = ns.ip;
  success = false;
  timed_out = is_timeout e;
  duration = elapsed;
  metrics = [];
  labels = [];
}
recursion_result zone ns elapsed (ok r) = record {
  zone = zone;
  check = bytes "recursion";
  nameserver = ns.hostname;
  ip = ns.ip;
  success = true;
  timed_out = false;
  duration = elapsed;
  metrics = (bytes "ns_recursion_available", bool_to_float r.recursion_available) ∷ [];
  labels = [];
}

module _ (net : Net) (timeout : ℕ) (zone : Text) where
  unfoldable pub probe_recursion_for_ns : Nameserver → M ProbeResult
  unfolding exchange_with_retry time_now recursion_result
  probe_recursion_for_ns ns = do
    start ← time_now net
    outcome ←
        exchange_with_retry net timeout (recursive_query (net.fqdn zone))
          (net.resolve_address ns.ip)
    stop ← time_now net
    return (recursion_result zone ns (stop - start) outcome)

  unfoldable pub probe_recursion : List Nameserver → M (List ProbeResult)
  unfolding for_each probe_recursion_for_ns
  probe_recursion nameservers = for_each probe_recursion_for_ns nameservers
