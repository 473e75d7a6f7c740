-- ===== src/Cycle/Vocabulary/Emitted.antt =====
-- A network on which the probers report every metric that they have.
use dnshealth_exporter.Prelude.{ℕ, true, false, List, [], ◌∷◌, ◌++◌, ◌≡◌, refl, all}
use dnshealth_exporter.Text.{Text, bytes, contains}
use dnshealth_exporter.Dns.{Net, Rr, Reply, Soa, a, ns, mx, txt, soa, success}
use dnshealth_exporter.Dns.Errors.{ok}
use dnshealth_exporter.Resolver.{Nameserver}
use dnshealth_exporter.Resolver.Delegation.{DelegationResult}
use dnshealth_exporter.Probe.{ProbeResult}
use dnshealth_exporter.Cycle.{probers, run_probers}
use dnshealth_exporter.Registry.{query_success, query_duration}
use dnshealth_exporter.Cycle.Vocabulary.{gauge_names}
use dnshealth_exporter.Cycle.Vocabulary.Disjoint.{prefixed}

abbrev zone : Text
zone = bytes "a."

abbrev start_of_authority : Soa
start_of_authority = record {
  mname = bytes "ns1.a.";
  serial = 1;
  refresh = 2;
  retry = 3;
  expire = 4;
  minttl = 5;
}

-- The records of a zone whose servers list one more server than its parent.
abbrev records : List Rr
records =
    ns zone (bytes "ns1.a.")
    ∷ ns zone (bytes "ns2.a.")
    ∷ soa zone start_of_authority
    ∷ mx zone (bytes "ns1.a.") 10
    ∷ a (bytes "ns1.a.") (bytes "192.0.2.1")
    ∷ txt zone (bytes "v=spf1 -all" ∷ [])
    ∷ txt zone (bytes "v=DMARC1;p=none;sp=none" ∷ [])
    ∷ []

abbrev reply : Reply
reply = record {
  authoritative = true;
  recursion_available = false;
  rcode = success;
  answer = records;
  authority = [];
  additional = [];
}

-- A network whose servers answer each question with all records of the zone.
abbrev pub complete : Net
complete = record {
  exchange = λ h q timeout server. ok reply;
  clock = λ h. 0;
  context_done = λ h. false;
  fqdn = λ t. t;
  resolve_address = λ t. t;
  root_server = bytes "192.0.2.1";
}

abbrev server : Nameserver
server = record { hostname = bytes "ns1.a."; ip = bytes "192.0.2.1" }

abbrev delegation : DelegationResult
delegation = record { parent_server = []; ns_records = server ∷ []; glue = server ∷ [] }

abbrev names_of : List (Text × ℕ) → List Text
names_of [] = []
names_of ((name, value) ∷ metrics) = name ∷ names_of metrics

abbrev reported : List ProbeResult → List Text
reported [] = []
reported (r ∷ rs) = names_of r.metrics ++ reported rs

-- The names that the probers report on this network.
unfoldable pub emitted : List Text
unfolding run_probers probers
emitted = reported (run_probers complete 5 (probers complete 5) zone (server ∷ []) delegation []).0

-- With their prefix, and the two names that the registry adds for each result.
abbrev pub reported_names : List Text
reported_names = query_success ∷ query_duration ∷ prefixed emitted

-- Every name that a prober may report is reported on this network.
gauge_names-emitted : all (contains emitted) gauge_names ≡ true
unfolding emitted contains
gauge_names-emitted = refl
