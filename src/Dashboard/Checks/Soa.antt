-- ===== src/Dashboard/Checks/Soa.antt =====
-- demo/dashboard/panels_status.go: the status checks of the SOA record. A check that leaves out a
-- predicate has an empty one.
use dnshealth_exporter.Prelude.{List, [], ◌∷◌}
use dnshealth_exporter.Text.{bytes, concat}
use dnshealth_exporter.Dashboard.Status.{StatusCheck, soa_no_data}

abbrev pub soa_status_a : StatusCheck
soa_status_a = record {
  ref_id = bytes "A";
  expr = concat (
      bytes "((max by (zone) (dnshealth_soa_serial{zone=\"$zone\"}) - min by (zone) "
      ∷ bytes "(dnshealth_soa_serial{zone=\"$zone\"})) == bool 0) and on(zone) (count by "
      ∷ bytes "(zone) (dnshealth_soa_serial{zone=\"$zone\"}) > bool 0) or on() vector(0)"
      ∷ []);
  na_expr = soa_no_data;
  warn_expr = [];
  legend_format = bytes "All NSs report same SOA serial";
  detail = concat (
      bytes "**Metric**: `max(dnshealth_soa_serial) - min(dnshealth_soa_serial) == "
      ∷ bytes "0`  "
      ∷ (10 ∷ [])
      ∷ bytes "**Why FAIL matters**: Secondaries haven't pulled the latest zone "
      ∷ (226 ∷ 128 ∷ 148 ∷ [])
      ∷ bytes " resolvers may serve stale data depending on which NS they hit.  "
      ∷ (10 ∷ [])
      ∷ bytes "**N/A**: no NS answered the SOA query this cycle "
      ∷ (226 ∷ 128 ∷ 148 ∷ [])
      ∷ bytes " there are no serials to compare.  "
      ∷ (10 ∷ [])
      ∷ bytes "**Investigate**: SOA per-nameserver table below "
      ∷ (226 ∷ 128 ∷ 148 ∷ [])
      ∷ bytes " find the NS reporting an out-of-date serial."
      ∷ []);
}

abbrev pub soa_status_b : StatusCheck
soa_status_b = record {
  ref_id = bytes "B";
  expr = concat (
      bytes "(count by (zone) (dnshealth_soa_serial{zone=\"$zone\"}) >= bool 1) or "
      ∷ bytes "on() vector(0)"
      ∷ []);
  na_expr = soa_no_data;
  warn_expr = bytes "min by (zone) (dnshealth_soa_mname_in_ns_set{zone=\"$zone\"}) == bool 0";
  legend_format = bytes "SOA MNAME is in zone's NS RR set";
  detail = concat (
      bytes "**Metric**: `min(dnshealth_soa_mname_in_ns_set)`  "
      ∷ (10 ∷ [])
      ∷ bytes "**WARN (not FAIL) matters**: The MNAME identifies the primary master. "
      ∷ bytes "An MNAME outside the NS set is RFC-allowed and normal for hidden-master "
      ∷ bytes "setups (NOTIFY-driven primary not in the public NS set) "
      ∷ (226 ∷ 128 ∷ 148 ∷ [])
      ∷ bytes " so this is a soft 'verify intent' warning, not an error. If it's "
      ∷ bytes "unintentional, NOTIFY may target the wrong server.  "
      ∷ (10 ∷ [])
      ∷ bytes "**N/A**: no NS answered the SOA query this cycle.  "
      ∷ (10 ∷ [])
      ∷ bytes "**Investigate**: SOA per-nameserver table "
      ∷ (226 ∷ 128 ∷ 148 ∷ [])
      ∷ bytes " each row's `mname` label vs. the NS records tables."
      ∷ []);
}

abbrev pub soa_status_c : StatusCheck
soa_status_c = record {
  ref_id = bytes "C";
  expr = concat (
      bytes "min by (zone) (dnshealth_soa_mname_resolves{zone=\"$zone\"}) or on() "
      ∷ bytes "vector(0)"
      ∷ []);
  na_expr = soa_no_data;
  warn_expr = [];
  legend_format = bytes "SOA MNAME hostname resolves to A or AAAA";
  detail = concat (
      bytes "**Metric**: `min(dnshealth_soa_mname_resolves)`  "
      ∷ (10 ∷ [])
      ∷ bytes "**Why FAIL matters**: NOTIFY and dynamic updates target the MNAME "
      ∷ bytes "hostname; if it doesn't resolve, both mechanisms break silently.  "
      ∷ (10 ∷ [])
      ∷ bytes "**N/A**: no NS answered the SOA query this cycle "
      ∷ (226 ∷ 128 ∷ 148 ∷ [])
      ∷ bytes " there is no MNAME to resolve.  "
      ∷ (10 ∷ [])
      ∷ bytes "**Investigate**: SOA per-nameserver table shows the `mname` label "
      ∷ (226 ∷ 128 ∷ 148 ∷ [])
      ∷ bytes " try resolving that hostname externally."
      ∷ []);
}

abbrev pub soa_status_checks : List StatusCheck
soa_status_checks = soa_status_a ∷ soa_status_b ∷ soa_status_c ∷ []
