-- ===== src/Dashboard/Checks/Email.antt =====
-- demo/dashboard/panels_status.go: the status checks of SPF and DMARC. A check that leaves out a
-- predicate has an empty one.
use dnshealth_exporter.Prelude.{List, [], ◌∷◌}
use dnshealth_exporter.Text.{bytes, concat}
use dnshealth_exporter.Dashboard.Status.{StatusCheck, or_no_data}

unfoldable pub spf_status_a : StatusCheck
unfolding or_no_data
spf_status_a = record {
  ref_id = bytes "A";
  expr = concat (
      bytes "1 - clamp_max((max by (zone) (dnshealth_spf_record_count{zone=\"$zone\"}) "
      ∷ bytes "> bool 1) + (max by (zone) (dnshealth_spf_present{zone=\"$zone\"}) == "
      ∷ bytes "bool 1) * (max by (zone) (dnshealth_spf_valid{zone=\"$zone\"}) == bool "
      ∷ bytes "0), 1)"
      ∷ []);
  na_expr = (or_no_data (bytes "absent(dnshealth_spf_present{zone=\"$zone\"})"));
  warn_expr = bytes "max by (zone) (dnshealth_spf_present{zone=\"$zone\"}) == bool 0";
  legend_format = bytes "Zone publishes a single valid SPF record";
  detail = concat (
      bytes "**Metric**: `dnshealth_spf_present` / `dnshealth_spf_record_count` / "
      ∷ bytes "`dnshealth_spf_valid`  "
      ∷ (10 ∷ [])
      ∷ bytes "**WARN (absent)**: the zone publishes no SPF record. Even a domain that "
      ∷ bytes "sends no mail should publish `v=spf1 -all` to stop spammers forging it "
      ∷ bytes "as the sender "
      ∷ (226 ∷ 128 ∷ 148 ∷ [])
      ∷ bytes " SPF protects the domain regardless of whether it receives mail (MX), "
      ∷ bytes "so this applies to no-mail and Null-MX zones too. Verify intent.  "
      ∷ (10 ∷ [])
      ∷ bytes "**FAIL (broken)**: more than one `v=spf1` record (RFC 7208 "
      ∷ (194 ∷ 167 ∷ [])
      ∷ bytes "3.2 permanent error) or a malformed record "
      ∷ (226 ∷ 128 ∷ 148 ∷ [])
      ∷ bytes " receivers get a PermError and SPF effectively does not work.  "
      ∷ (10 ∷ [])
      ∷ bytes "**Investigate**: the zone's apex TXT records."
      ∷ []);
}

abbrev pub spf_status_b : StatusCheck
spf_status_b = record {
  ref_id = bytes "B";
  expr = bytes "max by (zone) (dnshealth_spf_terminal_all{zone=\"$zone\"})";
  na_expr = bytes "absent(dnshealth_spf_terminal_all{zone=\"$zone\"})";
  warn_expr = concat (
      bytes "max by (zone) (dnshealth_spf_terminal_all{zone=\"$zone\",qualifier=~\"neutr"
      ∷ bytes "al|none|pass\"})"
      ∷ []);
  legend_format = bytes "SPF ends in a restrictive 'all' qualifier";
  detail = concat (
      bytes "**Metric**: `dnshealth_spf_terminal_all{qualifier}`  "
      ∷ (10 ∷ [])
      ∷ bytes "**PASS**: the record ends in `-all` (fail) or `~all` (softfail) "
      ∷ (226 ∷ 128 ∷ 148 ∷ [])
      ∷ bytes " unauthorized senders are rejected or marked.  "
      ∷ (10 ∷ [])
      ∷ bytes "**WARN**: `?all` (neutral), no terminal `all`, or `+all` "
      ∷ (226 ∷ 128 ∷ 148 ∷ [])
      ∷ bytes " `+all` is syntactically valid but authorizes ANY sender to spoof the "
      ∷ bytes "domain, which is reckless; the others assert nothing. Verify intent.  "
      ∷ (10 ∷ [])
      ∷ bytes "**N/A**: the zone has no single SPF record (absent, or multiple records "
      ∷ (226 ∷ 128 ∷ 148 ∷ [])
      ∷ bytes " see the row above).  "
      ∷ (10 ∷ [])
      ∷ bytes "**Investigate**: the apex `v=spf1` record's final mechanism."
      ∷ []);
}

abbrev pub spf_status_c : StatusCheck
spf_status_c = record {
  ref_id = bytes "C";
  expr = concat (
      bytes "max by (zone) (dnshealth_spf_lookup_budget_exceeded{zone=\"$zone\"}) == "
      ∷ bytes "bool 0"
      ∷ []);
  na_expr = bytes "absent(dnshealth_spf_lookup_budget_exceeded{zone=\"$zone\"})";
  warn_expr = [];
  legend_format =
      concat (
        bytes "SPF within the 10-lookup budget (RFC 7208 "
        ∷ (194 ∷ 167 ∷ [])
        ∷ bytes "4.6.4)"
        ∷ []);
  detail = concat (
      bytes "**Metric**: `dnshealth_spf_lookup_budget_exceeded` / "
      ∷ bytes "`dnshealth_spf_lookup_count`  "
      ∷ (10 ∷ [])
      ∷ bytes "**Why FAIL matters**: the SPF record requires more than 10 DNS lookups "
      ∷ bytes "to evaluate (counting recursively through every "
      ∷ bytes "`include:`/`redirect=`). Receiving mail servers return **PermError** "
      ∷ bytes "per RFC 7208 "
      ∷ (194 ∷ 167 ∷ [])
      ∷ bytes "4.6.4 and SPF silently stops working "
      ∷ (226 ∷ 128 ∷ 148 ∷ [])
      ∷ bytes " even though the record looks fine by eye. The offending lookups are "
      ∷ bytes "usually buried inside third-party `include:` records.  "
      ∷ (10 ∷ [])
      ∷ bytes "**Count semantics**: `dnshealth_spf_lookup_count` is exact for 0"
      ∷ (226 ∷ 128 ∷ 147 ∷ [])
      ∷ bytes "10; an over-budget record reads **11 (\""
      ∷ (226 ∷ 137 ∷ 165 ∷ [])
      ∷ bytes "11\")** "
      ∷ (226 ∷ 128 ∷ 148 ∷ [])
      ∷ bytes " the walk stops the instant it knows it's over.  "
      ∷ (10 ∷ [])
      ∷ bytes "**Trust**: a FAIL fires only on a *resolved* over-budget count. If a "
      ∷ bytes "third-party include is briefly unreachable this cycle, the row stays "
      ∷ bytes "PASS and `dnshealth_spf_lookup_eval_complete` reads 0 (the count is a "
      ∷ bytes "lower bound) "
      ∷ (226 ∷ 128 ∷ 148 ∷ [])
      ∷ bytes " no false alarm from a flaky include.  "
      ∷ (10 ∷ [])
      ∷ bytes "**N/A**: the zone has no single valid SPF record (absent / multiple / "
      ∷ bytes "malformed "
      ∷ (226 ∷ 128 ∷ 148 ∷ [])
      ∷ bytes " see the rows above).  "
      ∷ (10 ∷ [])
      ∷ bytes "**Investigate**: expand the apex `include:` tree; trim or flatten "
      ∷ bytes "third-party includes."
      ∷ []);
}

unfoldable pub spf_status_checks : List StatusCheck
unfolding spf_status_a
spf_status_checks = spf_status_a ∷ spf_status_b ∷ spf_status_c ∷ []

unfoldable pub dmarc_status_a : StatusCheck
unfolding or_no_data
dmarc_status_a = record {
  ref_id = bytes "A";
  expr = concat (
      bytes "1 - clamp_max((max by (zone) (dnshealth_dmarc_present{zone=\"$zone\"}) == "
      ∷ bytes "bool 1) * (max by (zone) (dnshealth_dmarc_valid{zone=\"$zone\"}) == bool "
      ∷ bytes "0), 1)"
      ∷ []);
  na_expr = (or_no_data (bytes "absent(dnshealth_dmarc_present{zone=\"$zone\"})"));
  warn_expr = bytes "max by (zone) (dnshealth_dmarc_present{zone=\"$zone\"}) == bool 0";
  legend_format = bytes "Zone publishes a valid DMARC record";
  detail = concat (
      bytes "**Metric**: `dnshealth_dmarc_present` / `dnshealth_dmarc_valid`  "
      ∷ (10 ∷ [])
      ∷ bytes "**WARN (absent)**: no DMARC record at `_dmarc.<zone>`. DMARC ties "
      ∷ bytes "SPF/DKIM together with alignment and tells receivers what to do on "
      ∷ bytes "failure; without it, look-alike spoofing SPF alone can't stop is "
      ∷ bytes "unmitigated. A no-mail / Null-MX domain still benefits (publish "
      ∷ bytes "`p=reject`). Verify intent.  "
      ∷ (10 ∷ [])
      ∷ bytes "**FAIL (broken)**: a `v=DMARC1` record with no valid `p=` tag (RFC 7489 "
      ∷ (194 ∷ 167 ∷ [])
      ∷ bytes "6.3 requires it) "
      ∷ (226 ∷ 128 ∷ 148 ∷ [])
      ∷ bytes " receivers can't apply a policy.  "
      ∷ (10 ∷ [])
      ∷ bytes "**Investigate**: the `_dmarc.<zone>` TXT record."
      ∷ []);
}

abbrev pub dmarc_status_b : StatusCheck
dmarc_status_b = record {
  ref_id = bytes "B";
  expr = bytes "max by (zone) (dnshealth_dmarc_policy{zone=\"$zone\"})";
  na_expr = bytes "absent(dnshealth_dmarc_policy{zone=\"$zone\"})";
  warn_expr = bytes "max by (zone) (dnshealth_dmarc_policy{zone=\"$zone\",policy=\"none\"})";
  legend_format = bytes "DMARC enforces a policy (quarantine or reject)";
  detail = concat (
      bytes "**Metric**: `dnshealth_dmarc_policy{policy}`  "
      ∷ (10 ∷ [])
      ∷ bytes "**PASS**: `p=quarantine` or `p=reject` "
      ∷ (226 ∷ 128 ∷ 148 ∷ [])
      ∷ bytes " the domain enforces alignment, so spoofed mail is quarantined or "
      ∷ bytes "rejected.  "
      ∷ (10 ∷ [])
      ∷ bytes "**WARN**: `p=none` "
      ∷ (226 ∷ 128 ∷ 148 ∷ [])
      ∷ bytes " DMARC is published but only MONITORS; it does not enforce, so spoofed "
      ∷ bytes "mail is still delivered. A legitimate rollout stage, but verify it's "
      ∷ bytes "intended to stay there.  "
      ∷ (10 ∷ [])
      ∷ bytes "**N/A**: the zone has no valid DMARC record (absent or malformed "
      ∷ (226 ∷ 128 ∷ 148 ∷ [])
      ∷ bytes " see the row above).  "
      ∷ (10 ∷ [])
      ∷ bytes "**Investigate**: the `p=` tag of the `_dmarc.<zone>` record."
      ∷ []);
}

unfoldable pub dmarc_status_checks : List StatusCheck
unfolding dmarc_status_a
dmarc_status_checks = dmarc_status_a ∷ dmarc_status_b ∷ []
