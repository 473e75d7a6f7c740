-- ===== src/Dashboard/Checks/Mx.antt =====
-- demo/dashboard/panels_status.go: the status checks of the MX records. A check that leaves out a
-- predicate has an empty one.
use dnshealth_exporter.Prelude.{List, [], ◌∷◌}
use dnshealth_exporter.Text.{Text, bytes, concat}
use dnshealth_exporter.Dashboard.Status.{StatusCheck, soa_no_data, or_no_data}

abbrev pub mx_no_real_targets : Text
mx_no_real_targets = concat (
    bytes "clamp_max((dnshealth_mx_count{zone=\"$zone\"} == bool 0) + on(zone) "
    ∷ bytes "(dnshealth_mx_null_mx{zone=\"$zone\"} == bool 1), 1)"
    ∷ [])

unfoldable pub mx_not_applicable : Text
unfolding or_no_data
mx_not_applicable = (or_no_data mx_no_real_targets)

abbrev pub mx_status_a : StatusCheck
mx_status_a = record {
  ref_id = bytes "A";
  expr = concat (
      bytes "((dnshealth_mx_count{zone=\"$zone\"} > bool 0) or on(zone) "
      ∷ bytes "(dnshealth_mx_null_mx{zone=\"$zone\"} == bool 1)) or on() vector(0)"
      ∷ []);
  na_expr = soa_no_data;
  warn_expr = concat (
      bytes "(dnshealth_mx_count{zone=\"$zone\"} == bool 1) * on(zone) "
      ∷ bytes "(dnshealth_mx_null_mx{zone=\"$zone\"} == bool 0)"
      ∷ []);
  legend_format = bytes "Zone has MX records (or Null MX intentionally set)";
  detail = concat (
      bytes "**Metric**: `dnshealth_mx_count` + `dnshealth_mx_null_mx`  "
      ∷ (10 ∷ [])
      ∷ bytes "**Why FAIL matters**: Zone publishes no MX records AND no Null MX "
      ∷ bytes "declaration "
      ∷ (226 ∷ 128 ∷ 148 ∷ [])
      ∷ bytes " all incoming email fails. Either publish MX records or declare Null MX "
      ∷ bytes "(`0 .`) per RFC 7505 if no email is intended.  "
      ∷ (10 ∷ [])
      ∷ bytes "**WARN at exactly one MX**: mail is deliverable but there is no backup "
      ∷ bytes "MX "
      ∷ (226 ∷ 128 ∷ 148 ∷ [])
      ∷ bytes " a single MX outage takes inbound mail down. Add a lower-priority "
      ∷ bytes "backup MX for redundancy.  "
      ∷ (10 ∷ [])
      ∷ bytes "**Investigate**: per-MX records table below shows what the zone "
      ∷ bytes "advertises; check the auth's zone file for the MX RR set."
      ∷ []);
}

unfoldable pub mx_status_b : StatusCheck
unfolding mx_not_applicable
mx_status_b = record {
  ref_id = bytes "B";
  expr = concat (
      bytes "(dnshealth_mx_count{zone=\"$zone\"} == bool "
      ∷ bytes "dnshealth_mx_resolved_count{zone=\"$zone\"}) or on() vector(0)"
      ∷ []);
  na_expr = mx_not_applicable;
  warn_expr = [];
  legend_format = bytes "All MX targets resolve";
  detail = concat (
      bytes "**Metric**: `dnshealth_mx_count == dnshealth_mx_resolved_count`  "
      ∷ (10 ∷ [])
      ∷ bytes "**Why FAIL matters**: At least one MX target's hostname doesn't resolve "
      ∷ bytes "to A or AAAA. Inbound mail attempts for that target will fail.  "
      ∷ (10 ∷ [])
      ∷ bytes "**N/A**: the zone has no MX records, or is Null MX (`0 .`) "
      ∷ (226 ∷ 128 ∷ 148 ∷ [])
      ∷ bytes " there are no targets to resolve, so the check does not apply.  "
      ∷ (10 ∷ [])
      ∷ bytes "**Investigate**: per-MX records table "
      ∷ (226 ∷ 128 ∷ 148 ∷ [])
      ∷ bytes " `resolves=0` column identifies the offending target."
      ∷ []);
}

unfoldable pub mx_status_c : StatusCheck
unfolding mx_not_applicable
mx_status_c = record {
  ref_id = bytes "C";
  expr = bytes "(dnshealth_mx_cname_count{zone=\"$zone\"} == bool 0) or on() vector(0)";
  na_expr = mx_not_applicable;
  warn_expr = [];
  legend_format =
      concat (bytes "No MX target is a CNAME (RFC 2181 " ∷ (194 ∷ 167 ∷ []) ∷ bytes "10.3)" ∷ []);
  detail = concat (
      bytes "**Metric**: `dnshealth_mx_cname_count == 0`  "
      ∷ (10 ∷ [])
      ∷ bytes "**Why FAIL matters**: At least one MX target is an alias (CNAME), "
      ∷ bytes "violating RFC 2181 "
      ∷ (194 ∷ 167 ∷ [])
      ∷ bytes "10.3. Many MTAs handle this inconsistently; some refuse delivery "
      ∷ bytes "outright.  "
      ∷ (10 ∷ [])
      ∷ bytes "**N/A**: the zone has no MX records, or is Null MX "
      ∷ (226 ∷ 128 ∷ 148 ∷ [])
      ∷ bytes " no targets to check.  "
      ∷ (10 ∷ [])
      ∷ bytes "**Investigate**: per-MX records table "
      ∷ (226 ∷ 128 ∷ 148 ∷ [])
      ∷ bytes " `is_cname=1` column identifies the offending target."
      ∷ []);
}

unfoldable pub mx_status_d : StatusCheck
unfolding mx_not_applicable
mx_status_d = record {
  ref_id = bytes "D";
  expr = concat (
      bytes "(dnshealth_mx_count{zone=\"$zone\"} == bool "
      ∷ bytes "dnshealth_mx_syntax_valid_count{zone=\"$zone\"}) or on() vector(0)"
      ∷ []);
  na_expr = mx_not_applicable;
  warn_expr = [];
  legend_format = bytes "All MX target hostnames syntactically valid (LDH)";
  detail = concat (
      bytes "**Metric**: `dnshealth_mx_count == dnshealth_mx_syntax_valid_count`  "
      ∷ (10 ∷ [])
      ∷ bytes "**Why FAIL matters**: At least one MX target hostname has invalid "
      ∷ bytes "syntax (underscore, leading/trailing hyphen, etc.) per RFC 952/1123. "
      ∷ bytes "Some strict resolvers may reject.  "
      ∷ (10 ∷ [])
      ∷ bytes "**N/A**: the zone has no MX records, or is Null MX "
      ∷ (226 ∷ 128 ∷ 148 ∷ [])
      ∷ bytes " no hostnames to validate.  "
      ∷ (10 ∷ [])
      ∷ bytes "**Investigate**: per-MX records table; the same LDH check is applied to "
      ∷ bytes "NS hostnames in spec N6 "
      ∷ (226 ∷ 128 ∷ 148 ∷ [])
      ∷ bytes " see that row for the validator details."
      ∷ []);
}

abbrev pub mx_status_e : StatusCheck
mx_status_e = record {
  ref_id = bytes "E";
  expr = concat (
      bytes "(1 - clamp_max((dnshealth_mx_has_null_mx_rr{zone=\"$zone\"} == bool 1) * "
      ∷ bytes "on(zone) (dnshealth_mx_count{zone=\"$zone\"} > bool 1), 1)) or on() "
      ∷ bytes "vector(0)"
      ∷ []);
  na_expr = soa_no_data;
  warn_expr = [];
  legend_format = bytes "No conflict between Null MX and real MX records";
  detail = concat (
      bytes "**Metric**: derived from `dnshealth_mx_has_null_mx_rr` + "
      ∷ bytes "`dnshealth_mx_count`  "
      ∷ (10 ∷ [])
      ∷ bytes "**Why FAIL matters**: Zone publishes a Null MX RR (`0 .`) AND "
      ∷ bytes "additional MX records. RFC 7505 "
      ∷ (194 ∷ 167 ∷ [])
      ∷ bytes "3 requires Null MX to be the SOLE MX record; coexistence is undefined "
      ∷ bytes "and likely interpreted differently by different MTAs.  "
      ∷ (10 ∷ [])
      ∷ bytes "**Investigate**: auth's zone file "
      ∷ (226 ∷ 128 ∷ 148 ∷ [])
      ∷ bytes " remove either the Null MX RR (if you want to accept email) or the real "
      ∷ bytes "MX records (if you don't). The distinction between "
      ∷ bytes "`dnshealth_mx_null_mx` (canonical form only) and "
      ∷ bytes "`dnshealth_mx_has_null_mx_rr` (any Null MX RR present, regardless of "
      ∷ bytes "count) is what makes this row catchable "
      ∷ (226 ∷ 128 ∷ 148 ∷ [])
      ∷ bytes " see spec 008 audit D-5."
      ∷ []);
}

unfoldable pub mx_status_checks : List StatusCheck
unfolding mx_status_b mx_status_c mx_status_d
mx_status_checks = mx_status_a ∷ mx_status_b ∷ mx_status_c ∷ mx_status_d ∷ mx_status_e ∷ []
