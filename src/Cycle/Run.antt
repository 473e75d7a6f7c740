-- ===== src/Cycle/Run.antt =====
-- cycle/runner.go: Run. The goroutines of the zones run one after the other here, in the order in
-- which their results are collected; each has its own view `net zone` of the network, so that what
-- the others do in between is part of what its servers, its clock and its context may answer.
pub mod Counts
pub mod Metrics
use dnshealth_exporter.Prelude.{
  ℕ, ◌+◌, ◌-◌, Bool, true, false, Option, none, some, List, [], ◌∷◌, ◌++◌, if◌then◌else◌, length,
}
use dnshealth_exporter.Text.{Text}
use dnshealth_exporter.Dns.{Net, History}
use dnshealth_exporter.Cache
use dnshealth_exporter.Cache.{DelegationCache}
use dnshealth_exporter.Resolver.Delegation.{DelegationResult}
use dnshealth_exporter.Probe.{ProbeResult, bool_to_float}
use dnshealth_exporter.Cycle.{ProbeFn, ZoneReport, probe_zone}
use dnshealth_exporter.Cycle.Gauges.{VecLib}
use dnshealth_exporter.Cycle.Aggregate.{
  Gauges, reset_gauges, count_queries, aggregate_classification, aggregate_mx,
}

-- CycleResult, without the time of completion.
pub record CycleResult : Type 0 where
  pub results : List ProbeResult
  pub duration : ℕ
  pub zone_count : ℕ

module _ (lib : VecLib) where
  pub record Runner : Type 0 where
    pub cache : DelegationCache DelegationResult
    pub gauges : Gauges lib
    pub cycle_duration : ℕ
    pub zones_probed : ℕ
    pub cache_hits : ℕ
    pub cache_misses : ℕ

  -- The times of the environment of one zone: of the lookup in the cache, and of the store.
  pub record ZoneEnv : Type 0 where
    pub net : Net
    pub looked_at : ℕ
    pub stored_at : ℕ

  abbrev pub store :
      DelegationCache DelegationResult
      → ℕ
      → Text
      → Option DelegationResult
      → DelegationCache DelegationResult
  store c now zone none = c
  store c now zone (some d) = Cache.set c now zone d

  -- What the goroutine of a zone leaves in the runner.
  unfoldable pub apply_report : Text → ℕ → ZoneReport → Runner → Runner
  unfolding Cache.set
  apply_report zone now report r = record r {
    cache = store r.cache now zone report.stored;
    gauges = record r.gauges {
      parent_delegation =
          lib.set r.gauges.parent_delegation (zone ∷ []) (bool_to_float report.delegated);
    };
    cache_hits = (if report.hit then r.cache_hits + 1 else r.cache_hits);
    cache_misses = (if report.hit then r.cache_misses else r.cache_misses + 1);
  }

  module _ (probers : Net → ℕ → List ProbeFn) (is_ipv6 : Text → Bool) (timeout : ℕ)
      (env : Text → ZoneEnv) where
    unfoldable pub report_zone : Text → Runner → ZoneReport
    unfolding probe_zone Cache.get
    report_zone zone r =
        let e = env zone in
        (probe_zone e.net timeout (probers e.net timeout) is_ipv6 zone
          (Cache.get r.cache e.looked_at zone) []).0

    unfoldable pub probe_zones : List Text → Runner → List ProbeResult × Runner
    unfolding report_zone apply_report
    probe_zones [] r = ([], r)
    probe_zones (zone ∷ zones) r =
        let report = report_zone zone r in
        let (rest, r') = probe_zones zones (apply_report zone (env zone).stored_at report r) in
        (report.results ++ rest, r')

    -- `zones` are the zones of the configuration, `order` the same in the order of completion.
    unfoldable pub run : (zones order : List Text) (start stop : ℕ) → Runner → CycleResult × Runner
    unfolding probe_zones reset_gauges count_queries aggregate_classification aggregate_mx
    run zones order start stop r =
        let (results, r') = probe_zones order (record r { gauges = reset_gauges lib r.gauges }) in
        (
          record { results = results; duration = stop - start; zone_count = length zones },
          record r' {
            cycle_duration = stop - start;
            zones_probed = length zones;
            gauges =
                aggregate_mx lib zones results (
                  aggregate_classification lib zones results (count_queries lib results r'.gauges));
          },
        )
