-- ===== src/Probe/Soa.antt =====
-- prober/soa.go: the SOA record of each nameserver.
use dnshealth_exporter.Prelude.{
  ℕ, ◌-◌, Bool, true, false, not, Option, none, some, List, [], ◌∷◌, ◌>>=◌, return, is_nil,
}
use dnshealth_exporter.Text.{Text, bytes, to_lower, contains, lookup, insert}
use dnshealth_exporter.Dns.{Net, Rr, soa, Soa, Outcome, M, type_soa, time_now, question}
use dnshealth_exporter.Dns.Errors.{is_timeout, Result, ok, err}
use dnshealth_exporter.Retry.{exchange_with_retry}
use dnshealth_exporter.Resolver.{Nameserver}
use dnshealth_exporter.Resolver.Delegation.{DelegationResult}
use dnshealth_exporter.Resolver.Hostnames.{resolve_hostnames}
use dnshealth_exporter.Probe.{ProbeResult, bool_to_float}

-- The first SOA record of an answer.
unfoldable pub first_soa : List Rr → Option Soa
first_soa [] = none
first_soa (soa o s ∷ rrs) = some s
first_soa (_ ∷ rrs) = first_soa rrs

-- The result before and without a SOA record.
abbrev pub soa_failed : Text → Nameserver → ℕ → Bool → ProbeResult
soa_failed zone ns elapsed timed_out = record {
  zone = zone;
  check = bytes "soa";
  nameserver = ns.hostname;
  ip = ns.ip;
  success = false;
  timed_out = timed_out;
  duration = elapsed;
  metrics = [];
  labels = [];
}

abbrev pub soa_found : Text → Nameserver → ℕ → Text → Soa → Bool → Bool → ProbeResult
soa_found zone ns elapsed mname s in_ns_set resolves = record {
  zone = zone;
  check = bytes "soa";
  nameserver = ns.hostname;
  ip = ns.ip;
  success = true;
  timed_out = false;
  duration = elapsed;
  metrics =
      (bytes "soa_serial", s.serial)
      ∷ (bytes "soa_refresh_seconds", s.refresh)
      ∷ (bytes "soa_retry_seconds", s.retry)
      ∷ (bytes "soa_expire_seconds", s.expire)
      ∷ (bytes "soa_minimum_seconds", s.minttl)
      ∷ (bytes "soa_mname", 1)
      ∷ (bytes "soa_mname_in_ns_set", bool_to_float in_ns_set)
      ∷ (bytes "soa_mname_resolves", bool_to_float resolves)
      ∷ [];
  labels = (bytes "mname", mname) ∷ [];
}

-- An address was found.
abbrev pub has_address : Result (List Text) → Bool
has_address (ok ips) = not (is_nil ips)
has_address (err e) = false

module _ (net : Net) (timeout : ℕ) (zone : Text) where
  -- nsSet
  unfoldable pub canonical_set : List Nameserver → List Text
  unfolding to_lower
  canonical_set [] = []
  canonical_set (n ∷ ns) = to_lower (net.fqdn n.hostname) ∷ canonical_set ns

  -- A host that was seen before is not resolved again; `cache` is mnameResolves.
  unfoldable pub cached_resolves :
      Text → Text → List (Text × Bool) → Option Bool → M (Bool × List (Text × Bool))
  unfolding insert resolve_hostnames
  cached_resolves host key cache (some known) = return (known, cache)
  cached_resolves host key cache none = do
    ips ← resolve_hostnames net timeout host
    return (has_address ips, insert key (has_address ips) cache)

  unfoldable pub on_soa :
      Nameserver
      → List Text
      → List (Text × Bool)
      → ℕ
      → Option Soa
      → M (ProbeResult × List (Text × Bool))
  unfolding cached_resolves contains lookup to_lower
  on_soa ns ns_set cache elapsed none = return (soa_failed zone ns elapsed false, cache)
  on_soa ns ns_set cache elapsed (some s) = do
    let mname = net.fqdn s.mname
    let key = to_lower (net.fqdn s.mname)
    (resolves, cache') ← cached_resolves mname key cache (lookup key cache)
    return (soa_found zone ns elapsed mname s (contains ns_set key) resolves, cache')

  unfoldable pub on_outcome :
      Nameserver
      → List Text
      → List (Text × Bool)
      → ℕ
      → Outcome
      → M (ProbeResult × List (Text × Bool))
  unfolding on_soa first_soa is_timeout
  on_outcome ns ns_set cache elapsed (err e) =
      return (soa_failed zone ns elapsed (is_timeout e), cache)
  on_outcome ns ns_set cache elapsed (ok r) = on_soa ns ns_set cache elapsed (first_soa r.answer)

  unfoldable pub probe_soa_for_ns :
      List Text → List (Text × Bool) → Nameserver → M (ProbeResult × List (Text × Bool))
  unfolding on_outcome exchange_with_retry time_now
  probe_soa_for_ns ns_set cache ns = do
    start ← time_now net
    outcome ←
        exchange_with_retry net timeout (question (net.fqdn zone) type_soa)
          (net.resolve_address ns.ip)
    stop ← time_now net
    on_outcome ns ns_set cache (stop - start) outcome

  unfoldable pub soa_loop : List Text → List (Text × Bool) → List Nameserver → M (List ProbeResult)
  unfolding probe_soa_for_ns
  soa_loop ns_set cache [] = return []
  soa_loop ns_set cache (ns ∷ nss) = do
    (result, cache') ← probe_soa_for_ns ns_set cache ns
    results ← soa_loop ns_set cache' nss
    return (result ∷ results)

  unfoldable pub probe_soa : List Nameserver → DelegationResult → M (List ProbeResult)
  unfolding soa_loop canonical_set
  probe_soa nameservers delegation = soa_loop (canonical_set delegation.ns_records) [] nameservers
