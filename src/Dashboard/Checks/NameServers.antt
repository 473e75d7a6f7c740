-- ===== src/Dashboard/Checks/NameServers.antt =====
-- demo/dashboard/panels_status.go: the status checks of the name servers. A check that leaves out a
-- predicate has an empty one.
use dnshealth_exporter.Prelude.{List, [], ◌∷◌}
use dnshealth_exporter.Text.{Text, bytes, concat}
use dnshealth_exporter.Dashboard.Status.{StatusCheck}

abbrev pub ns_count : Text
ns_count = concat (
    bytes "count by (zone) (count by (zone, nameserver) "
    ∷ bytes "(dnshealth_query_success{check=\"soa\",zone=\"$zone\"}))"
    ∷ [])

abbrev pub ns_status_a : StatusCheck
ns_status_a = record {
  ref_id = bytes "A";
  expr = concat (bytes "(" ∷ ns_count ∷ bytes " >= bool 2) or on() vector(0)" ∷ []);
  na_expr = [];
  warn_expr = concat (ns_count ∷ bytes " == bool 2" ∷ []);
  legend_format = bytes "Multiple authoritative nameservers (>=2)";
  detail = concat (
      bytes "**Metric**: distinct (zone, nameserver) tuples in "
      ∷ bytes "`dnshealth_query_success{check=\"soa\"}`  "
      ∷ (10 ∷ [])
      ∷ bytes "**Why FAIL matters**: A single NS is a single point of failure (RFC "
      ∷ bytes "2182). One outage = the whole zone goes dark.  "
      ∷ (10 ∷ [])
      ∷ bytes "**WARN at exactly 2**: meets the bare minimum but RFC 2182 "
      ∷ (194 ∷ 167 ∷ [])
      ∷ bytes "5 recommends more nameservers for topological / provider diversity.  "
      ∷ (10 ∷ [])
      ∷ bytes "**Investigate**: NS records panels below; add at least one more NS."
      ∷ []);
}

abbrev pub ns_status_b : StatusCheck
ns_status_b = record {
  ref_id = bytes "B";
  expr = concat (
      bytes "min by (zone) (dnshealth_query_success{check=\"soa\",zone=\"$zone\"}) or "
      ∷ bytes "on() vector(0)"
      ∷ []);
  na_expr = [];
  warn_expr = [];
  legend_format = bytes "All NSs answered SOA authoritatively";
  detail = concat (
      bytes "**Metric**: `min(dnshealth_query_success{check=\"soa\"})`  "
      ∷ (10 ∷ [])
      ∷ bytes "**Why FAIL matters**: At least one NS isn't responding correctly; "
      ∷ bytes "further failures take the zone dark.  "
      ∷ (10 ∷ [])
      ∷ bytes "**Investigate**: NS records (from the zone) "
      ∷ (226 ∷ 128 ∷ 148 ∷ [])
      ∷ bytes " `Responded` column highlights which NS failed."
      ∷ []);
}

abbrev pub ns_status_c : StatusCheck
ns_status_c = record {
  ref_id = bytes "C";
  expr = concat (
      bytes "(max by (zone) (dnshealth_ns_recursion_available{zone=\"$zone\"}) == bool "
      ∷ bytes "0) or on() vector(0)"
      ∷ []);
  na_expr = [];
  warn_expr = [];
  legend_format = bytes "No NS advertises recursion (RA=0)";
  detail = concat (
      bytes "**Metric**: `max(dnshealth_ns_recursion_available) == 0`  "
      ∷ (10 ∷ [])
      ∷ bytes "**Why FAIL matters**: Open recursive resolvers can be abused for DNS "
      ∷ bytes "amplification / reflection attacks.  "
      ∷ (10 ∷ [])
      ∷ bytes "**Investigate**: NS records (from the zone) "
      ∷ (226 ∷ 128 ∷ 148 ∷ [])
      ∷ bytes " `Recursion` column highlights the offending NS."
      ∷ []);
}

abbrev pub ns_status_d : StatusCheck
ns_status_d = record {
  ref_id = bytes "D";
  expr = concat (
      bytes "(min by (zone) (count by (zone, nameserver) (group by (zone, "
      ∷ bytes "nameserver, source) (dnshealth_ns_record{zone=\"$zone\"}))) == bool 2) or "
      ∷ bytes "on() vector(0)"
      ∷ []);
  na_expr = [];
  warn_expr = [];
  legend_format = bytes "Parent and self report same NS records";
  detail = concat (
      bytes "**Metric**: per-nameserver count of distinct sources in "
      ∷ bytes "`dnshealth_ns_record`, aggregated `min by (zone) == 2`  "
      ∷ (10 ∷ [])
      ∷ bytes "**Why FAIL matters**: At least one NS hostname appears on only one side "
      ∷ (226 ∷ 128 ∷ 148 ∷ [])
      ∷ bytes " parent and zone disagree on the NS set, so resolvers picking either "
      ∷ bytes "side may reach servers the other doesn't know about. The check is "
      ∷ bytes "set-equality on **names**; IP-level glue disagreement is a separate "
      ∷ bytes "concern (#37).  "
      ∷ (10 ∷ [])
      ∷ bytes "**Investigate**: NS records (from parent) and NS records (from the "
      ∷ bytes "zone) tables side-by-side "
      ∷ (226 ∷ 128 ∷ 148 ∷ [])
      ∷ bytes " the hostname appearing in only one table is the discrepancy."
      ∷ []);
}

abbrev pub ns_status_e : StatusCheck
ns_status_e = record {
  ref_id = bytes "E";
  expr = concat (
      bytes "min by (zone) (dnshealth_ns_hostname_syntax_valid{zone=\"$zone\"}) or "
      ∷ bytes "on() vector(0)"
      ∷ []);
  na_expr = [];
  warn_expr = [];
  legend_format = bytes "All NS hostnames syntactically valid (LDH)";
  detail = concat (
      bytes "**Metric**: `min(dnshealth_ns_hostname_syntax_valid)`  "
      ∷ (10 ∷ [])
      ∷ bytes "**Why FAIL matters**: Hostnames violating RFC 952 / 1123 (underscores, "
      ∷ bytes "leading/trailing hyphens) may be rejected by strict resolvers.  "
      ∷ (10 ∷ [])
      ∷ bytes "**Investigate**: NS records tables show each NS hostname "
      ∷ (226 ∷ 128 ∷ 148 ∷ [])
      ∷ bytes " find the one with the invalid character."
      ∷ []);
}

abbrev pub ns_status_f : StatusCheck
ns_status_f = record {
  ref_id = bytes "F";
  expr = concat (
      bytes "((max by (zone) (dnshealth_ns_hostname_is_cname{zone=\"$zone\"})) == bool "
      ∷ bytes "0) or on() vector(0)"
      ∷ []);
  na_expr = [];
  warn_expr = [];
  legend_format =
      concat (bytes "No NS hostname is a CNAME (RFC 2181 " ∷ (194 ∷ 167 ∷ []) ∷ bytes "10.3)" ∷ []);
  detail = concat (
      bytes "**Metric**: `max(dnshealth_ns_hostname_is_cname) == 0`  "
      ∷ (10 ∷ [])
      ∷ bytes "**Why FAIL matters**: NS records pointing at a CNAME violate RFC 2181 "
      ∷ (194 ∷ 167 ∷ [])
      ∷ bytes "10.3; resolver handling is inconsistent "
      ∷ (226 ∷ 134 ∷ 146 ∷ [])
      ∷ bytes " intermittent resolution failures.  "
      ∷ (10 ∷ [])
      ∷ bytes "**Investigate**: NS records tables show each NS hostname; check its "
      ∷ bytes "CNAME chain externally."
      ∷ []);
}

abbrev pub ns_status_g : StatusCheck
ns_status_g = record {
  ref_id = bytes "G";
  expr = concat (
      bytes "(max by (zone) (dnshealth_ns_classification_count{classification=\"self-o"
      ∷ bytes "nly\",zone=\"$zone\"}) == bool 0) and on(zone) (max by (zone) "
      ∷ bytes "(dnshealth_ns_classification_count{classification=\"parent-only\",zone=\"$z"
      ∷ bytes "one\"}) == bool 0) or on() vector(0)"
      ∷ []);
  na_expr = [];
  warn_expr = [];
  legend_format = bytes "No stealth NSes (parent and self agree on NS set)";
  detail = concat (
      bytes "**Metric**: `dnshealth_ns_classification_count{classification=\"self-only"
      ∷ bytes "\"|\"parent-only\"}`  "
      ∷ (10 ∷ [])
      ∷ bytes "**Why FAIL matters**: At least one NS hostname is asymmetric "
      ∷ (226 ∷ 128 ∷ 148 ∷ [])
      ∷ bytes " the parent advertises an NS the zone's own authoritative servers don't "
      ∷ bytes "list (parent-only), or an auth lists an NS the parent doesn't "
      ∷ bytes "(self-only, the \"stealth\" case). Self-only divergence can be a "
      ∷ bytes "legitimate hidden-master setup (NOTIFY-driven primary not in the public "
      ∷ bytes "NS set, by design) "
      ∷ (226 ∷ 128 ∷ 148 ∷ [])
      ∷ bytes " verify intent before alerting.  "
      ∷ (10 ∷ [])
      ∷ bytes "**Scope limitation**: This row detects asymmetry between sources we can "
      ∷ bytes "query. RFC 8499 \"stealth\" servers "
      ∷ (226 ∷ 128 ∷ 148 ∷ [])
      ∷ bytes " those absent from EVERY public source "
      ∷ (226 ∷ 128 ∷ 148 ∷ [])
      ∷ bytes " are not detectable by any single-vantage-point exporter and remain "
      ∷ bytes "invisible to this check. See spec 007.  "
      ∷ (10 ∷ [])
      ∷ bytes "**Investigate**: NS records (from parent) and NS records (from the "
      ∷ bytes "zone) tables side-by-side "
      ∷ (226 ∷ 128 ∷ 148 ∷ [])
      ∷ bytes " the hostname appearing in only one table is the asymmetric NS. For "
      ∷ bytes "self-only cases, check `dnshealth_ns_stealth_reachable{nameserver=X}` "
      ∷ (226 ∷ 128 ∷ 148 ∷ [])
      ∷ bytes " 1 = working hidden master, 0 = leaked listing."
      ∷ []);
}

abbrev pub ns_status_h : StatusCheck
ns_status_h = record {
  ref_id = bytes "H";
  expr = concat (
      bytes "(max by (zone) ((count by (zone,nameserver) (group by "
      ∷ bytes "(zone,nameserver,source) (dnshealth_ns_glue{zone=\"$zone\"})) == bool 2) "
      ∷ bytes "* (min by (zone,nameserver) (count by (zone,nameserver,ip) (group by "
      ∷ bytes "(zone,nameserver,ip,source) (dnshealth_ns_glue{zone=\"$zone\"}))) != bool "
      ∷ bytes "2)) == bool 0) or on() vector(0)"
      ∷ []);
  na_expr = bytes "absent(dnshealth_ns_glue{source=\"parent\",zone=\"$zone\"})";
  warn_expr = [];
  legend_format = bytes "Parent glue agrees with auth-reported addresses";
  detail = concat (
      bytes "**Metric**: per-(nameserver, ip) source coverage in "
      ∷ bytes "`dnshealth_ns_glue`, evaluated only for NS hostnames present on "
      ∷ bytes "**both** sides  "
      ∷ (10 ∷ [])
      ∷ bytes "**Why FAIL matters**: For a nameserver the parent glues AND the auth "
      ∷ bytes "answers for, the IP addresses disagree "
      ∷ (226 ∷ 128 ∷ 148 ∷ [])
      ∷ bytes " the parent's glue points resolvers at one address while the zone's own "
      ∷ bytes "A/AAAA records say another. Resolvers seeded from the parent reach the "
      ∷ bytes "glue IP; resolvers that re-query the auth reach the other. Depending on "
      ∷ bytes "caching and lookup path, end users hit different servers and see "
      ∷ bytes "inconsistent answers. This is intoDNS's \"Glue\" check.  "
      ∷ (10 ∷ [])
      ∷ bytes "**Scope**: Only hostnames present on both sides are compared, so a name "
      ∷ bytes "missing from one side (out-of-bailiwick NS whose A the auth doesn't "
      ∷ bytes "host, or a lame server) is left to the NS-set rows above, not "
      ∷ bytes "double-counted here. The check is set-equality on the shared hostnames' "
      ∷ bytes "(hostname, IP) tuples "
      ∷ (226 ∷ 128 ∷ 148 ∷ [])
      ∷ bytes " an address present on only one side (e.g. a partially-glued anycast "
      ∷ bytes "set) also FAILs.  "
      ∷ (10 ∷ [])
      ∷ bytes "**N/A**: the parent provided no glue for this zone (every NS is "
      ∷ bytes "out-of-bailiwick, or the delegation walk returned none) "
      ∷ (226 ∷ 128 ∷ 148 ∷ [])
      ∷ bytes " there are no parent-side addresses to compare.  "
      ∷ (10 ∷ [])
      ∷ bytes "**Investigate**: NS records (from parent) vs NS records (from the zone) "
      ∷ bytes "tables "
      ∷ (226 ∷ 128 ∷ 148 ∷ [])
      ∷ bytes " find the hostname whose `ip` differs between the two sources."
      ∷ []);
}

abbrev pub ns_status_checks : List StatusCheck
ns_status_checks =
    ns_status_a ∷ ns_status_b ∷ ns_status_c ∷ ns_status_d ∷ ns_status_e ∷ ns_status_f ∷ ns_status_g
    ∷ ns_status_h ∷ []
