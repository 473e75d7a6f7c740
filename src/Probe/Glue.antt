-- ===== src/Probe/Glue.antt =====
-- prober/glue.go: the parent's view of the name servers beside their own.
use dnshealth_exporter.Prelude.{
  ℕ, true, false, List, [], ◌∷◌, ◌++◌, map, ◌>>=◌, return, if◌then◌else◌,
}
use dnshealth_exporter.Text.{Text, bytes, contains}
use dnshealth_exporter.Dns.{Net, Qtype, type_a, type_aaaa, type_ns, Outcome, M, question}
use dnshealth_exporter.Dns.Errors.{Error, is_timeout, wrapped, Result, ok, err}
use dnshealth_exporter.Retry.{exchange_with_retry}
use dnshealth_exporter.Resolver.{Nameserver, ns_targets, family_answer}
use dnshealth_exporter.Resolver.Delegation.{DelegationResult, entries}
use dnshealth_exporter.Probe.{ProbeResult}

abbrev pub glue_check : Text
glue_check = bytes "glue"

-- A result that carries one metric, from the parent or from the server itself.
abbrev pub source_result : Text → Text → Text → Nameserver → ProbeResult
source_result metric source zone n = record {
  zone = zone;
  check = glue_check;
  nameserver = n.hostname;
  ip = n.ip;
  success = true;
  timed_out = false;
  duration = 0;
  metrics = (metric, 1) ∷ [];
  labels = (bytes "source", source) ∷ [];
}

abbrev pub glue_failed : Text → Nameserver → Error → ProbeResult
glue_failed zone n e = record {
  zone = zone;
  check = glue_check;
  nameserver = n.hostname;
  ip = n.ip;
  success = false;
  timed_out = is_timeout e;
  duration = 0;
  metrics = [];
  labels = [];
}

abbrev pub parent_results : Text → DelegationResult → List ProbeResult
parent_results zone d =
    map (source_result (bytes "ns_record") (bytes "parent") zone) d.ns_records
    ++ map (source_result (bytes "ns_glue") (bytes "parent") zone) d.glue

-- The key under which a self result is registered.
unfoldable pub self_key : Text → Nameserver → Text
self_key metric n = metric ++ (b':' ∷ (n.hostname ++ (b':' ∷ (n.ip ++ bytes ":self"))))

-- One result for each key that is not registered yet, and the keys that are registered then.
unfoldable pub self_results :
    Text → Text → List Text → List Nameserver → List ProbeResult × List Text
unfolding contains self_key
self_results zone metric keys [] = ([], keys)
self_results zone metric keys (n ∷ ns) =
    let again = self_results zone metric keys ns in
    let fresh = self_results zone metric (self_key metric n ∷ keys) ns in
    if contains keys (self_key metric n)
    then again
    else (source_result metric (bytes "self") zone n ∷ fresh.0, fresh.1)

module _ (net : Net) (timeout : ℕ) (zone : Text) where
  -- The addresses of one family that the server gives for a host; none if the query fails.
  family_entries : Text → Qtype → Outcome → List Nameserver
  unfolding family_answer entries
  family_entries host qtype (err e) = []
  family_entries host qtype (ok r) = entries host (family_answer qtype r.answer)

  ask_family : Text → Qtype → Text → M (List Nameserver)
  unfolding exchange_with_retry family_entries
  ask_family host qtype server = do
    outcome ← exchange_with_retry net timeout (question host qtype) server
    return (family_entries host qtype outcome)

  ask_hosts : Text → List Text → M (List Nameserver)
  unfolding ask_family
  ask_hosts server [] = return []
  ask_hosts server (host ∷ hosts) = do
    v4 ← ask_family host type_a server
    v6 ← ask_family host type_aaaa server
    rest ← ask_hosts server hosts
    return (v4 ++ (v6 ++ rest))

  on_ns_answer : Text → Outcome → M (Result (List Nameserver × List Nameserver))
  unfolding ask_hosts ns_targets
  on_ns_answer server (err e) = return (err (wrapped e))
  on_ns_answer server (ok r) = do
    found ← ask_hosts server (ns_targets r.answer)
    return (ok (found, found))

  -- The NS records and the address records of a server; each address makes an entry in both.
  unfoldable pub query_self_for_ns_and_a :
      Nameserver → M (Result (List Nameserver × List Nameserver))
  unfolding on_ns_answer exchange_with_retry
  query_self_for_ns_and_a n = do
    outcome ←
        exchange_with_retry net timeout (question (net.fqdn zone) type_ns)
          (net.resolve_address n.ip)
    on_ns_answer (net.resolve_address n.ip) outcome

  abbrev pub self_of :
      Nameserver
      → List Text
      → Result (List Nameserver × List Nameserver)
      → List ProbeResult × List Text
  self_of n keys (err e) = (glue_failed zone n e ∷ [], keys)
  self_of n keys (ok (self_ns, self_glue)) =
      let (records, keys1) = self_results zone (bytes "ns_record") keys self_ns in
      let (glues, keys2) = self_results zone (bytes "ns_glue") keys1 self_glue in
      (records ++ glues, keys2)

  unfoldable pub self_loop : List Text → List Nameserver → M (List ProbeResult)
  unfolding query_self_for_ns_and_a self_results is_timeout
  self_loop keys [] = return []
  self_loop keys (n ∷ ns) = do
    found ← query_self_for_ns_and_a n
    rest ← self_loop (self_of n keys found).1 ns
    return ((self_of n keys found).0 ++ rest)

  unfoldable pub probe_glue : List Nameserver → DelegationResult → M (List ProbeResult)
  unfolding self_loop
  probe_glue nameservers delegation = do
    own ← self_loop [] nameservers
    return (parent_results zone delegation ++ own)
