-- ===== src/Cycle.antt =====
-- cycle/runner.go: the probe of one zone.
pub mod Nameservers
pub mod Gauges
pub mod Aggregate
pub mod Registration
pub mod Vocabulary
pub mod Run
use dnshealth_exporter.Prelude.{
  ℕ, Bool, true, false, not, ◌&&◌, ◌||◌, Option, none, some, List, [], ◌∷◌, ◌++◌, ◌>>=◌, return,
  if◌then◌else◌, is_nil,
}
use dnshealth_exporter.Text.{Text, contains}
use dnshealth_exporter.Dns.{Net, M}
use dnshealth_exporter.Dns.Errors.{Error, Result, ok, err}
use dnshealth_exporter.Resolver.{Nameserver}
use dnshealth_exporter.Resolver.Delegation.{DelegationResult, walk_delegation}
use dnshealth_exporter.Resolver.Hostnames.{resolve_hostnames}
use dnshealth_exporter.Probe.{ProbeResult}
use dnshealth_exporter.Probe.Soa.{probe_soa}
use dnshealth_exporter.Probe.Recursion.{probe_recursion}
use dnshealth_exporter.Probe.Glue.{probe_glue}
use dnshealth_exporter.Probe.NsHostname.{probe_ns_hostname}
use dnshealth_exporter.Probe.NsClassification.{probe_ns_classification}
use dnshealth_exporter.Probe.Mx.{probe_mx}
use dnshealth_exporter.Probe.EmailAuth.{probe_email_auth}
use Nameservers.{server_key, build_initial_nameservers, hosts_needing_augmentation}

-- ProbeFn, in the context of a zone.
abbrev pub ProbeFn : Type 0
ProbeFn = Text → List Nameserver → DelegationResult → M (Result (List ProbeResult))

-- What the goroutine of a zone does besides its queries: the results, the gauge of the delegation,
-- whether the cache had it, and what it stores there.
pub record ZoneReport : Type 0 where
  pub results : List ProbeResult
  pub delegated : Bool
  pub hit : Bool
  pub stored : Option DelegationResult

module _ (net : Net) (timeout : ℕ) where
  -- A prober that reports no error.
  abbrev pub succeeds : M (List ProbeResult) → M (Result (List ProbeResult))
  succeeds m = m >>= λ rs. return (ok rs)

  -- prober.Probers, as the init functions register it; a Go map has no order of its own.
  unfoldable pub probers : List ProbeFn
  unfolding probe_soa probe_recursion probe_glue probe_ns_hostname probe_ns_classification probe_mx
      probe_email_auth
  probers =
      (λ zone nss d. succeeds (probe_soa net timeout zone nss d))
      ∷ (λ zone nss d. succeeds (probe_recursion net timeout zone nss))
      ∷ (λ zone nss d. succeeds (probe_glue net timeout zone nss d))
      ∷ (λ zone nss d. succeeds (probe_ns_hostname net timeout zone nss))
      ∷ (λ zone nss d. succeeds (probe_ns_classification net timeout zone nss d))
      ∷ (λ zone nss d. succeeds (probe_mx net timeout zone nss))
      ∷ (λ zone nss d. succeeds (probe_email_auth net timeout zone nss))
      ∷ []

  -- The results of a prober that fails are dropped.
  abbrev pub kept : Result (List ProbeResult) → List ProbeResult
  kept (ok rs) = rs
  kept (err e) = []

  unfoldable pub run_probers :
      List ProbeFn → Text → List Nameserver → DelegationResult → M (List ProbeResult)
  run_probers [] zone nss d = return []
  run_probers (fn ∷ fns) zone nss d = do
    rs ← fn zone nss d
    rest ← run_probers fns zone nss d
    return (kept rs ++ rest)

  -- The addresses of a host that are not known yet, and the keys that are then.
  unfoldable pub add_addresses :
      Text → List Nameserver × List Text → List Text → List Nameserver × List Text
  unfolding contains server_key
  add_addresses host (nss, seen) [] = (nss, seen)
  add_addresses host (nss, seen) (ip ∷ ips) =
      add_addresses host
        (if contains seen (server_key host ip)
          then (nss, seen)
          else (nss ++ record { hostname = host; ip = ip } ∷ [], server_key host ip ∷ seen))
        ips

  abbrev pub add_resolved :
      Text → List Nameserver × List Text → Result (List Text) → List Nameserver × List Text
  add_resolved host known (err e) = known
  add_resolved host known (ok ips) = add_addresses host known ips

  unfoldable pub augment : List Nameserver × List Text → List Text → M (List Nameserver × List Text)
  unfolding resolve_hostnames add_addresses
  augment known [] = return known
  augment known (host ∷ hosts) = do
    ips ← resolve_hostnames net timeout host
    augment (add_resolved host known ips) hosts

  module _ (fns : List ProbeFn) (is_ipv6 : Text → Bool) (zone : Text) where
    unfoldable pub probe_with : DelegationResult → List Nameserver → M (List ProbeResult)
    unfolding run_probers
    probe_with d [] = return []
    probe_with d (n ∷ ns) = run_probers fns zone (n ∷ ns) d

    unfoldable pub probe_delegated : DelegationResult → M (List ProbeResult)
    unfolding probe_with augment build_initial_nameservers hosts_needing_augmentation
    probe_delegated d = do
      (nss, _) ←
          augment (build_initial_nameservers d.ns_records)
            (hosts_needing_augmentation is_ipv6 d.ns_records)
      probe_with d nss

    unfoldable pub after_walk : Result DelegationResult → M ZoneReport
    unfolding probe_delegated
    after_walk (err e) =
        return (record { results = []; delegated = false; hit = false; stored = none })
    after_walk (ok d) = do
      rs ← probe_delegated d
      return (record { results = rs; delegated = true; hit = false; stored = some d })

    -- `cached` is what the delegation cache gives for the zone.
    unfoldable pub probe_zone : Option DelegationResult → M ZoneReport
    unfolding after_walk walk_delegation probe_delegated
    probe_zone (some d) = do
      rs ← probe_delegated d
      return (record { results = rs; delegated = true; hit = true; stored = none })
    probe_zone none = do walked ← walk_delegation net timeout zone; after_walk walked
