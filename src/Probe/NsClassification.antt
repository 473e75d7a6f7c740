-- ===== src/Probe/NsClassification.antt =====
-- prober/ns_classification.go: the parent's name servers beside those the servers list themselves.
pub mod Laws
use dnshealth_exporter.Prelude.{
  ℕ, Bool, true, false, not, ◌&&◌, ◌||◌, Option, none, some, List, [], ◌∷◌, ◌++◌, ◌>>=◌, return,
  if◌then◌else◌, is_nil,
}
use dnshealth_exporter.Text.{Text, bytes, ◌==◌, to_lower, contains, lookup, insert, sort}
use dnshealth_exporter.Dns.{Net, Rr, soa, Outcome, M, type_ns, type_soa, question}
use dnshealth_exporter.Dns.Errors.{Result, ok, err}
use dnshealth_exporter.Retry.{exchange_with_retry}
use dnshealth_exporter.Resolver.{Nameserver, ns_targets}
use dnshealth_exporter.Resolver.Delegation.{DelegationResult}
use dnshealth_exporter.Resolver.Hostnames.{resolve_hostnames}
use dnshealth_exporter.Probe.{ProbeResult, bool_to_float}

-- A set of texts as a list in which no text comes twice.
unfoldable pub add_name : List Text → Text → List Text
unfolding contains
add_name set t = if contains set t then set else set ++ t ∷ []

unfoldable pub add_names : List Text → List Text → List Text
unfolding add_name
add_names set [] = set
add_names set (t ∷ ts) = add_names (add_name set t) ts

unfoldable pub union_sorted : List Text → List Text → List Text
unfolding add_names sort
union_sorted a b = sort (add_names (add_names [] a) b)

abbrev pub self_only : Text
self_only = bytes "self-only"

abbrev pub parent_only : Text
parent_only = bytes "parent-only"

abbrev pub both : Text
both = bytes "both"

unfoldable pub classify_host : Text → List Text → List Text → Text
unfolding contains
classify_host host parent_set self_set =
    if contains parent_set host && contains self_set host
    then both
    else if contains parent_set host
    then parent_only
    else self_only

unfoldable pub has_soa : List Rr → Bool
has_soa [] = false
has_soa (soa o s ∷ rrs) = true
has_soa (_ ∷ rrs) = has_soa rrs

-- An authoritative answer with a SOA record.
abbrev pub is_soa_answer : Outcome → Bool
is_soa_answer (err e) = false
is_soa_answer (ok r) = r.authoritative && has_soa r.answer

-- ipByHost[host], which is empty for a host that is not there.
unfoldable pub known_ip : Text → List (Text × Text) → Text
unfolding lookup
known_ip host ips = elim (lookup host ips) [ none ↦ [] | some ip ↦ ip ]

abbrev pub classification_result : Text → Text → Text → Text → List (Text × ℕ) → ProbeResult
classification_result zone host ip class metrics = record {
  zone = zone;
  check = bytes "ns_classification";
  nameserver = host;
  ip = ip;
  success = true;
  timed_out = false;
  duration = 0;
  metrics = (bytes "ns_classification", 1) ∷ metrics;
  labels = (bytes "classification", class) ∷ [];
}

module _ (net : Net) (timeout : ℕ) (zone : Text) where
  unfoldable pub canon_name : Text → Text
  unfolding to_lower
  canon_name name = to_lower (net.fqdn name)

  unfoldable pub canon_names : List Text → List Text
  unfolding canon_name
  canon_names [] = []
  canon_names (t ∷ ts) = canon_name t ∷ canon_names ts

  -- The keys of parentSet, in order.
  unfoldable pub parent_names : List Nameserver → List Text
  unfolding canon_name
  parent_names [] = []
  parent_names (n ∷ ns) = canon_name n.hostname ∷ parent_names ns

  -- The first address of a host stays.
  abbrev add_ip : Text → Text → List (Text × Text) → List (Text × Text)
  add_ip key ip ips = elim (lookup key ips) [ none ↦ insert key ip ips | some _ ↦ ips ]

  unfoldable pub parent_ips : List (Text × Text) → List Nameserver → List (Text × Text)
  unfolding canon_name lookup insert
  parent_ips ips [] = ips
  parent_ips ips (n ∷ ns) =
      parent_ips (if is_nil n.ip then ips else add_ip (canon_name n.hostname) n.ip ips) ns

  abbrev pub listed : Outcome → List Text
  listed (err e) = []
  listed (ok r) = ns_targets r.answer

  unfoldable pub query_self_ns_set : Text → M (List Text)
  unfolding exchange_with_retry ns_targets
  query_self_ns_set ip = do
    outcome ←
        exchange_with_retry net timeout (question (net.fqdn zone) type_ns) (net.resolve_address ip)
    return (listed outcome)

  -- The names that the servers list; each address is asked once.
  unfoldable pub self_names : List Text → List Nameserver → M (List Text)
  unfolding query_self_ns_set canon_names contains
  self_names queried [] = return []
  self_names queried (n ∷ ns) =
      let skipped = self_names queried ns in
      let asked = self_names (n.ip ∷ queried) ns in
      if is_nil n.ip || contains queried n.ip
      then skipped
      else do hosts ← query_self_ns_set n.ip; rest ← asked; return (canon_names hosts ++ rest)

  any_soa : List Text → M Bool
  unfolding exchange_with_retry has_soa
  any_soa [] = return false
  any_soa (ip ∷ ips) = do
    outcome ←
        exchange_with_retry net timeout (question (net.fqdn zone) type_soa) (net.resolve_address ip)
    if is_soa_answer outcome then return true else any_soa ips

  on_addresses : Result (List Text) → M Bool
  unfolding any_soa
  on_addresses (err e) = return false
  on_addresses (ok ips) = any_soa ips

  unfoldable pub probe_stealth_reachable : Text → M Bool
  unfolding on_addresses resolve_hostnames
  probe_stealth_reachable host = do ips ← resolve_hostnames net timeout host; on_addresses ips

  unfoldable pub reachable_metrics : Text → M (List (Text × ℕ))
  unfolding probe_stealth_reachable
  reachable_metrics host = do
    reachable ← probe_stealth_reachable host
    return ((bytes "ns_stealth_reachable", bool_to_float reachable) ∷ [])

  -- A host that only the servers themselves list is probed.
  unfoldable pub stealth_metrics : Text → Text → M (List (Text × ℕ))
  unfolding reachable_metrics ◌==◌
  stealth_metrics class host = if class == self_only then reachable_metrics host else return []

  unfoldable pub classify_all :
      List Text → List Text → List (Text × Text) → List Text → M (List ProbeResult)
  unfolding stealth_metrics classify_host known_ip
  classify_all parent_set self_set ips [] = return []
  classify_all parent_set self_set ips (host ∷ hosts) = do
    let class = classify_host host parent_set self_set
    extra ← stealth_metrics class host
    rest ← classify_all parent_set self_set ips hosts
    return (classification_result zone host (known_ip host ips) class extra ∷ rest)

  unfoldable pub probe_ns_classification : List Nameserver → DelegationResult → M (List ProbeResult)
  unfolding classify_all union_sorted self_names parent_names parent_ips
  probe_ns_classification nameservers delegation = do
    let parent_set = parent_names delegation.ns_records
    self_set ← self_names [] nameservers
    classify_all parent_set self_set (parent_ips [] delegation.ns_records)
        (union_sorted parent_set self_set)
