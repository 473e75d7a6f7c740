-- ===== src/Examples/Metrics.antt =====
-- cycle/runner.go and prober/registry.go with small models of the metric vectors and the registry.
use dnshealth_exporter.Prelude.{
  ℕ, ◌+◌, Bool, true, false, ◌&&◌, Option, none, some, List, [], ◌∷◌, ◌≡◌, refl, sym, ap, ap₂,
  &&-eq-true, ◌∙◌, ◌↔◌, arith, if◌then◌else◌, any,
}
use mathlib.Core.Option.{some-injective}
use dnshealth_exporter.Text.{Text, bytes, ◌==◌, contains, lookup}
use dnshealth_exporter.Text.Decimal.{parse_decimal}
use dnshealth_exporter.Text.Equality.{==_iff}
use dnshealth_exporter.Dns.{Net}
use dnshealth_exporter.Probe.{ProbeResult, zone_result}
use dnshealth_exporter.Probe.NsClassification.{both}
use dnshealth_exporter.Registry.{Labels, RegistryLib, query_success, success_labels, add_results}
use dnshealth_exporter.Registry.Laws.{RegistryLaws, add_results-keeps}
use dnshealth_exporter.Registry.Hidden.{glue_failure-hidden}
use dnshealth_exporter.Dns.Errors.{net_error}
use dnshealth_exporter.Resolver.{Nameserver}
use dnshealth_exporter.Probe.Glue.{glue_failed, probe_glue}
use dnshealth_exporter.Resolver.Delegation.{DelegationResult}
use dnshealth_exporter.Examples.Network.{loop}
use dnshealth_exporter.Registry.{build_registry}
use dnshealth_exporter.Cycle.{ProbeFn}
use dnshealth_exporter.Cycle.Gauges.{VecLib, same_labels, or_zero}
use dnshealth_exporter.Cycle.Aggregate.{Gauges, count_queries, aggregate_mx, is_min}
use dnshealth_exporter.Cycle.Aggregate.Mx.{rrs_of, null_in}
use dnshealth_exporter.Cycle.Run.{CycleResult, Runner, ZoneEnv, run}
use dnshealth_exporter.Cycle.Aggregate.Counters.{Gains, count_queries-Gains}
use dnshealth_exporter.Cycle.Aggregate.MxCounts.{
  counts_record, counts_metric, Tally, aggregate_mx-Tally,
}
use dnshealth_exporter.Cycle.Aggregate.Priorities.{least, of_zone, of_target}
use dnshealth_exporter.Cycle.Aggregate.Primary.{primary}
use dnshealth_exporter.Cycle.Run.Metrics.{Shows, run-Shows}
use dnshealth_exporter.Examples.Network.{loop}

-- A vector as the list of its writes, the latest first.
abbrev Writes : Type 0
Writes = List (List Text × ℕ)

abbrev read : Writes → List Text → Option ℕ
read [] k = none
read ((l, n) ∷ v) k = if same_labels l k then some n else read v k

abbrev pub vectors : VecLib
vectors = record {
  Vec = Writes;
  reset = λ v. [];
  set = λ v l n. (l, n) ∷ v;
  add = λ v l n. (l, or_zero (read v l) + n) ∷ v;
  value = read;
  value_reset = λ v l. refl;
  value_set = λ v l k n. refl;
  value_add = λ v l k n. refl;
}

abbrev zones : List Text
zones = bytes "a.example" ∷ []

abbrev class_result : ProbeResult
class_result = record (zone_result (bytes "a.example") (bytes "ns_classification")) {
  labels = (bytes "classification", both) ∷ [];
}

-- "0 ." of a zone.
abbrev null_result : ProbeResult
null_result = record (zone_result (bytes "a.example") (bytes "mx")) {
  metrics = (bytes "mx_info", 1) ∷ [];
  labels = (bytes "target", bytes ".") ∷ (bytes "priority", bytes "00000") ∷ [];
}

null_found : any (null_in (bytes "a.example")) (rrs_of (null_result ∷ [])) ≡ true
unfolding null_in rrs_of ◌==◌ lookup parse_decimal
null_found = refl

abbrev blank : Gauges vectors
blank = record {
  parent_delegation = [];
  ns_classification_count = [];
  mx_count = [];
  mx_resolved_count = [];
  mx_cname_count = [];
  mx_syntax_valid_count = [];
  null_mx = [];
  mx_has_null_mx_rr = [];
  mx_is_primary = [];
  dns_queries = [];
  dns_duration = [];
  dns_timeouts = [];
}

-- Two targets, of which the first has two records.
abbrev mx_result : Text → Text → ProbeResult
mx_result target priority = record (zone_result (bytes "a.example") (bytes "mx")) {
  metrics = (bytes "mx_info", 1) ∷ [];
  labels = (bytes "target", target) ∷ (bytes "priority", priority) ∷ [];
}

abbrev mx_results : List ProbeResult
mx_results =
    mx_result (bytes "m1.") (bytes "00030")
    ∷ mx_result (bytes "m2.") (bytes "00020")
    ∷ mx_result (bytes "m1.") (bytes "00010")
    ∷ []

first_is_primary :
    primary none
      (least (of_zone (bytes "a.example")) (rrs_of mx_results))
      (least (of_target (bytes "a.example") (bytes "m1.")) (rrs_of mx_results))
    ≡ some 1
unfolding rrs_of ◌==◌ lookup parse_decimal is_min
first_is_primary = refl

-- The checks of a target, of which two hold.
abbrev checked : ProbeResult
checked = record (zone_result (bytes "a.example") (bytes "mx")) {
  metrics = (bytes "mx_resolves", 1) ∷ (bytes "mx_is_cname", 0) ∷ (bytes "mx_syntax_valid", 1) ∷ [];
  labels = (bytes "target", bytes "m1.") ∷ [];
}

aggregate_mx-Tally_example :
    Tally vectors
      (bytes "a.example")
      (aggregate_mx vectors zones (mx_result (bytes "m1.") (bytes "00010") ∷ checked ∷ []) blank)
      1
      1
      0
      1
unfolding contains counts_record counts_metric ◌==◌ lookup parse_decimal
aggregate_mx-Tally_example =
    aggregate_mx-Tally vectors zones (mx_result (bytes "m1.") (bytes "00010") ∷ checked ∷ []) blank
      (bytes "a.example") refl

abbrev answered : ProbeResult
answered = record (zone_result (bytes "a.example") (bytes "soa")) {
  ip = bytes "192.0.2.1";
  duration = 5;
}

abbrev late : ProbeResult
late = record answered { success = false; timed_out = true; duration = 7 }

count_queries-Gains_example :
    Gains vectors
      (bytes "192.0.2.1")
      (answered ∷ null_result ∷ late ∷ [])
      blank
      (count_queries vectors (answered ∷ null_result ∷ late ∷ []) blank)
count_queries-Gains_example =
    count_queries-Gains vectors (bytes "192.0.2.1") (answered ∷ null_result ∷ late ∷ []) blank

abbrev pub runner : Runner vectors
runner = record {
  cache = record { entries = []; ttl = 5 };
  gauges = blank;
  cycle_duration = 0;
  zones_probed = 0;
  cache_hits = 0;
  cache_misses = 0;
}

abbrev env : Text → ZoneEnv vectors
env zone = record { net = loop; looked_at = 1; stored_at = 2 }

abbrev no_probers : Net → ℕ → List ProbeFn
no_probers net timeout = []

abbrev cycle : CycleResult × Runner vectors
cycle = run vectors no_probers (λ ip. false) 5 env zones zones 10 17 runner

run-Shows_example : Shows vectors cycle.0.results cycle.1.gauges (bytes "a.example")
unfolding contains
run-Shows_example =
    run-Shows vectors no_probers (λ ip. false) 5 env zones zones 10 17 runner (bytes "a.example")
      refl

-- Series as a list of writes, labels in the order in which they are given.
abbrev same_pairs : Labels → Labels → Bool
same_pairs [] [] = true
same_pairs ((k, v) ∷ l) ((k', v') ∷ l') = k == k' && (v == v' && same_pairs l l')
same_pairs _ _ = false

same_pairs_iff : (l l' : Labels) → (same_pairs l l' ≡ true) ↔ (l ≡ l')
same_pairs_iff [] [] = ground arith
same_pairs_iff [] (p ∷ l') = ground arith
same_pairs_iff (p ∷ l) [] = ground arith
same_pairs_iff ((k, v) ∷ l) ((k', v') ∷ l') =
    ground (arith, ==_iff k k', ==_iff v v', same_pairs_iff l l')

abbrev same_serie : Text → Labels → Text → Labels → Bool
same_serie name labels k l = name == k && same_pairs labels l

same_serie_refl : (name : Text) (labels : Labels) → same_serie name labels name labels ≡ true
same_serie_refl name labels = ground (arith, ==_iff name name, same_pairs_iff labels labels)

abbrev Series : Type 0
Series = List (Text × Labels × ℕ)

abbrev shown : Series → Text → Labels → Option ℕ
shown [] k l = none
shown ((name, labels, n) ∷ s) k l = if same_serie name labels k l then some n else shown s k l

abbrev registry : RegistryLib
registry = record {
  Registry = Series;
  new_registry = [];
  register = λ s name help labels. elim (shown s name labels) [ none ↦ some s | some _ ↦ none ];
  set_gauge = λ s name labels n. (name, labels, n) ∷ s;
}

register-refused :
    (s : Series) (name help k : Text) (labels l : Labels) (n : ℕ)
    → shown s k l ≡ some n
    → same_serie name labels k l ≡ true
    → registry.register s name help labels ≡ none
register-refused s name help k labels l n h e =
    ap (λ (o : Option ℕ). elim o as (λ _. Option Series) [ none ↦ some s | some _ ↦ none ])
      (same_value ∙ h)
  where
    same_value : shown s name labels ≡ shown s k l
    same_value =
        let (a, b) = &&-eq-true (name == k) (same_pairs labels l) e in
        ap₂ (shown s) ((==_iff name k).0 a) ((same_pairs_iff labels l).0 b)

register-value :
    (s s' : Series) (name help k : Text) (labels l : Labels)
    → registry.register s name help labels ≡ some s'
    → shown s' k l ≡ shown s k l
register-value s s' name help k labels l e = by_old (shown s name labels) e
  where
    by_old :
        (o : Option ℕ)
        → (elim o as (λ _. Option Series) [ none ↦ some s | some _ ↦ none ]) ≡ some s'
        → shown s' k l ≡ shown s k l
    by_old none q = ap (λ (x : Series). shown x k l) (sym (some-injective s s' q))
    by_old (some n) q = cc

abbrev laws : RegistryLaws registry
laws = record {
  value = shown;
  same_series = same_serie;
  same_series_refl = same_serie_refl;
  refused = register-refused;
  value_register = register-value;
  value_set = λ s name k labels l n. refl;
}

-- Two results of one server, of which the second failed: the first one shows.
abbrev failed : ProbeResult
failed = record (zone_result (bytes "a.example") (bytes "glue")) { success = false }

abbrev after_success : Series
after_success = (query_success, success_labels failed, 1) ∷ []

shown_first : shown after_success query_success (success_labels failed) ≡ some 1
unfolding ◌==◌
shown_first = refl

add_results-keeps_example :
    shown (add_results registry after_success (failed ∷ [])) query_success (success_labels failed)
    ≡ some 1
add_results-keeps_example =
    add_results-keeps registry laws query_success (success_labels failed) 1 (failed ∷ [])
      after_success shown_first

abbrev glue_server : Nameserver
glue_server = record { hostname = bytes "ns1."; ip = bytes "192.0.2.1" }

abbrev glue_delegation : DelegationResult
glue_delegation = record {
  ns_records = glue_server ∷ [];
  glue = glue_server ∷ [];
  parent_server = [];
}

glue_failure-hidden_example :
    shown
      (build_registry registry
        (probe_glue loop 5 (bytes "a.example") (glue_server ∷ []) glue_delegation []).0)
      query_success
      (success_labels (glue_failed (bytes "a.example") glue_server (net_error true)))
    ≡ some 1
unfolding build_registry
glue_failure-hidden_example =
    glue_failure-hidden registry laws loop 5 (bytes "a.example") (glue_server ∷ []) glue_delegation
      [] [] glue_server [] (net_error true) [] refl refl
