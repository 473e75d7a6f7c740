-- ===== src/Dashboard/Operator.antt =====
-- demo/dashboard/panels_operator.go: the queries of the time series.
use dnshealth_exporter.Prelude.{List, [], ◌∷◌}
use dnshealth_exporter.Text.{Text, bytes, concat}
use dnshealth_exporter.Dashboard.Layout.{em_dash}

-- A query over time, with the legend of its series.
pub record SeriesTarget : Type 0 where
  pub ref_id : Text
  pub expr : Text
  pub legend_format : Text

abbrev series_target : Text → Text → Text → SeriesTarget
series_target ref_id expr legend_format = record {
  ref_id = ref_id;
  expr = expr;
  legend_format = legend_format;
}

abbrev pub probe_cycle_duration_targets : List SeriesTarget
probe_cycle_duration_targets =
    series_target (bytes "A") (bytes "dnshealth_probe_cycle_duration_seconds")
      (bytes "cycle duration")
    ∷ []

abbrev pub dns_query_rate_targets : List SeriesTarget
dns_query_rate_targets =
    series_target (bytes "A") (bytes "rate(dnshealth_dns_queries_total[1m])")
      (concat (bytes "queries/s " ∷ em_dash ∷ bytes " {{server}}" ∷ []))
    ∷ series_target (bytes "B")
        (concat (
          bytes "rate(dnshealth_delegation_cache_hits_total[5m]) / "
          ∷ bytes "clamp_min((rate(dnshealth_delegation_cache_hits_total[5m]) + "
          ∷ bytes "rate(dnshealth_delegation_cache_misses_total[5m])), 1e-9)"
          ∷ []))
        (bytes "cache hit ratio")
    ∷ []

abbrev pub soa_serials_series_targets : List SeriesTarget
soa_serials_series_targets =
    series_target (bytes "A") (bytes "dnshealth_soa_serial{zone=\"$zone\"}")
      (bytes "{{nameserver}}")
    ∷ []

abbrev pub query_duration_targets : List SeriesTarget
query_duration_targets =
    series_target (bytes "A") (bytes "dnshealth_query_duration_seconds{zone=\"$zone\"}")
      (bytes "{{check}} via {{nameserver}}")
    ∷ []
