-- ===== src/Dashboard/Checks/Parent.antt =====
-- demo/dashboard/panels_status.go: the status checks of the delegation. A check that leaves out a
-- predicate has an empty one.
use dnshealth_exporter.Prelude.{List, [], ◌∷◌}
use dnshealth_exporter.Text.{bytes, concat}
use dnshealth_exporter.Dashboard.Status.{StatusCheck}

abbrev pub parent_status_a : StatusCheck
parent_status_a = record {
  ref_id = bytes "A";
  expr = concat (
      bytes "(count by (zone) (dnshealth_ns_record{source=\"parent\",zone=\"$zone\"}) > "
      ∷ bytes "bool 0) or on() vector(0)"
      ∷ []);
  na_expr = [];
  warn_expr = [];
  legend_format = bytes "Parent has NS records for the zone";
  detail = concat (
      bytes "**Metric**: `dnshealth_ns_record{source=\"parent\"}`  "
      ∷ (10 ∷ [])
      ∷ bytes "**Why FAIL matters**: The zone may be unreachable "
      ∷ (226 ∷ 128 ∷ 148 ∷ [])
      ∷ bytes " resolvers can't find the authoritative NSs without a delegation from "
      ∷ bytes "the parent.  "
      ∷ (10 ∷ [])
      ∷ bytes "**Investigate**: NS records (from parent) panel below; check the TLD's "
      ∷ bytes "view of the zone."
      ∷ []);
}

abbrev pub parent_status_b : StatusCheck
parent_status_b = record {
  ref_id = bytes "B";
  expr = bytes "dnshealth_parent_delegation{zone=\"$zone\"} or on() vector(0)";
  na_expr = [];
  warn_expr = [];
  legend_format = bytes "Parent delegation walk succeeded";
  detail = concat (
      bytes "**Metric**: `dnshealth_parent_delegation`  "
      ∷ (10 ∷ [])
      ∷ bytes "**Why FAIL matters**: The delegation walk from root failed entirely "
      ∷ (226 ∷ 128 ∷ 148 ∷ [])
      ∷ bytes " every downstream check has no data for this zone this cycle.  "
      ∷ (10 ∷ [])
      ∷ bytes "**Investigate**: Exporter logs (`delegation walk failed`); root-server "
      ∷ bytes "reachability."
      ∷ []);
}

abbrev pub parent_status_checks : List StatusCheck
parent_status_checks = parent_status_a ∷ parent_status_b ∷ []
