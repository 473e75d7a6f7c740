-- ===== src/Examples/Network.antt =====
-- prober/prober.go and the probers on a network whose servers all answer alike.
use dnshealth_exporter.Prelude.{
  ◌||◌, ℕ, ◌+◌, ◌*◌, ◌≤◌, true, false, List, [], ◌∷◌, ◌++◌, ◌≡◌, refl, ap, arith, count, length,
}
use dnshealth_exporter.Text.{Text, contains, bytes, ◌==◌}
use dnshealth_exporter.Dns.{Rr, Net, Reply, a, ns, success, Outcome}
use dnshealth_exporter.Dns.Errors.{net_error, ok, err}
use dnshealth_exporter.Dns.Queries.{queries}
use dnshealth_exporter.Resolver.{Nameserver, ns_targets}
use dnshealth_exporter.Resolver.Delegation.{DelegationResult, walk_delegation, extract_delegation}
use dnshealth_exporter.Resolver.Delegation.Entries.{is_entry, extract_delegation-entries}
use dnshealth_exporter.Resolver.Delegation.Bounds.{queries-walk_delegation}
use dnshealth_exporter.Resolver.Hostnames.Bounds.{ListsAtMost}
use dnshealth_exporter.Spf.Resolve.Bounds.{record_bound}
use dnshealth_exporter.Probe.EmailAuth.{probe_email_auth}
use dnshealth_exporter.Probe.EmailAuth.Bounds.{queries-probe_email_auth}
use dnshealth_exporter.Probe.Mx.{MxRecord, mx_loop, no_caches}
use dnshealth_exporter.Probe.Mx.Results.{informs, validates, mx_loop-counts}
use dnshealth_exporter.Probe.NsClassification.{parent_names, self_names, probe_ns_classification}
use dnshealth_exporter.Probe.NsClassification.Laws.{
  AllClassified, is_ascending, hosts_of, probe_ns_classification-lem,
}

-- A referral to a zone above the one that is asked for, with glue.
abbrev referral : Reply
referral = record {
  authoritative = false;
  recursion_available = true;
  rcode = success;
  answer = [];
  authority = ns (bytes "com.") (bytes "ns1.com.") ∷ [];
  additional = a (bytes "ns1.com.") (bytes "192.0.2.9") ∷ [];
}

-- Servers that refer forever, and servers that never answer.
abbrev net_of : Outcome → Net
net_of o = record {
  exchange = λ h q timeout server. o;
  clock = λ h. 0;
  context_done = λ h. false;
  fqdn = λ t. t ++ bytes ".";
  resolve_address = λ ip. ip ++ bytes ":53";
  root_server = bytes "198.41.0.4:53";
}

abbrev pub loop : Net
loop = net_of (ok referral)

abbrev silent : Net
silent = net_of (err (net_error true))

abbrev zone : Text
zone = bytes "example.com"

-- Ten rounds, and no more.
rounds_of_loop : queries (walk_delegation loop 5 zone []).1 ≡ 10
unfolding walk_delegation
rounds_of_loop = refl

queries-walk_delegation_example : queries (walk_delegation loop 5 zone []).1 ≤ 0 + 30
queries-walk_delegation_example = queries-walk_delegation loop 5 zone []

lists_one : ListsAtMost 1 loop
unfolding ns_targets
lists_one h q timeout server r e = omega (arith, ap (λ (o : Outcome). size o) e)
  where
    size : Outcome → ℕ
    size (ok r') = length (ns_targets r'.authority)
    size (err e') = 0

abbrev servers : List Nameserver
servers =
    record { hostname = bytes "ns1.example.com."; ip = bytes "192.0.2.1" }
    ∷ record { hostname = bytes "ns2.example.com."; ip = bytes "192.0.2.2" }
    ∷ []

abbrev delegation : DelegationResult
delegation = record { parent_server = bytes "192.0.2.9:53"; ns_records = servers; glue = servers }

probe_ns_classification-lem_example :
    let parent_set = parent_names loop 5 zone servers in
    let self_set = (self_names loop 5 zone [] servers []).0 in
    let results = (probe_ns_classification loop 5 zone servers delegation []).0 in
    (is_ascending (hosts_of results) ≡ true)
    × ((t : Text) → contains (hosts_of results) t ≡ (contains parent_set t || contains self_set t))
    × AllClassified parent_set self_set results
probe_ns_classification-lem_example = probe_ns_classification-lem loop 5 zone servers delegation []

-- One host with an address that is given twice, and one without.
abbrev listed : List Rr
listed = ns (bytes "a.example.") (bytes "ns1.") ∷ ns (bytes "a.example.") (bytes "ns2.") ∷ []

abbrev additional_section : List Rr
additional_section =
    a (bytes "ns1.") (bytes "192.0.2.1") ∷ a (bytes "ns1.") (bytes "192.0.2.1") ∷ []

extract_delegation-entries_example :
    (count
        (is_entry (bytes "ns1.") (bytes "192.0.2.1"))
        (extract_delegation (bytes "p:53") listed additional_section).glue
      ≡ 1)
    × (count
          (is_entry (bytes "ns1.") (bytes "192.0.2.1"))
          (extract_delegation (bytes "p:53") listed additional_section).ns_records
        ≡ 1)
unfolding ns_targets ◌==◌
extract_delegation-entries_example =
    extract_delegation-entries (bytes "p:53") listed additional_section (bytes "ns1.")
      (bytes "192.0.2.1")

queries-probe_email_auth_example :
    queries (probe_email_auth loop 5 zone servers []).1 ≤ 0 + (4 * 2 + 10 * record_bound 1)
queries-probe_email_auth_example = queries-probe_email_auth loop 5 1 lists_one zone servers []

-- Two records of one target.
abbrev exchangers : List MxRecord
exchangers =
    record { target = bytes "mail.example.com."; preference = 10 }
    ∷ record { target = bytes "mail.example.com."; preference = 20 }
    ∷ []

mx_loop-counts_example :
    let results = (mx_loop loop 5 zone no_caches exchangers []).0 in
    (count (informs (bytes "mail.example.com.")) results ≡ 2)
    × (count (validates (bytes "mail.example.com.")) results ≡ 1)
unfolding ◌==◌
mx_loop-counts_example = mx_loop-counts loop 5 zone exchangers [] (bytes "mail.example.com.")
