-- ===== src/Cycle/Vocabulary/MxEmail.antt =====
-- The metrics of the classification, MX and email authentication probers have known names.
use dnshealth_exporter.Prelude.{
  ℕ, Bool, true, false, Option, none, some, List, [], ◌∷◌, ◌++◌, ◌≡◌, refl, All-append, Bool-cases,
  inl, inr, ◌&&◌, not, eqb, is_nil,
}
use dnshealth_exporter.Text.{Text, bytes, contains, ◌==◌, join}
use dnshealth_exporter.Dns.{Net, History}
use dnshealth_exporter.Dns.Errors.{ok, err}
use dnshealth_exporter.Resolver.{Nameserver}
use dnshealth_exporter.Resolver.Delegation.{DelegationResult}
use dnshealth_exporter.Spf.{SpfResult, analyze_spf}
use dnshealth_exporter.Dmarc.{DmarcResult, analyze_dmarc}
use dnshealth_exporter.Probe.{ProbeResult}
use dnshealth_exporter.Probe.NsClassification.{
  classification_result, reachable_metrics, stealth_metrics, classify_all, self_only, known_ip,
  classify_host, probe_ns_classification,
}
use dnshealth_exporter.Probe.Mx.{
  MxCaches, MxRecord, mx_info_result, no_caches, Asked, check_target, check_validity, mx_loop,
  first_answer, report_mx, probe_mx,
}
use dnshealth_exporter.Probe.EmailAuth.{
  when, email_info, spf_results, dmarc_results, budget_result, count_lookups, lookup_budget,
  spf_part, dmarc_part, probe_email_auth, fetch_txt_records,
}
use dnshealth_exporter.Cycle.Vocabulary.{gauge_names, are_named, AllNamed}

abbrev Named : ProbeResult → Type 0
Named r = are_named r.metrics ≡ true

classification_result-Named :
    (zone host ip class : Text) (metrics : List (Text × ℕ))
    → are_named metrics ≡ true
    → Named (classification_result zone host ip class metrics)
unfolding are_named contains ◌==◌
classification_result-Named zone host ip class metrics h = h

module _ (net : Net) (timeout : ℕ) (zone : Text) where
  stealth_metrics-known :
      (class host : Text) (h : History)
      → are_named (stealth_metrics net timeout zone class host h).0 ≡ true
  unfolding stealth_metrics reachable_metrics are_named contains ◌==◌
  stealth_metrics-known class host h = elim (Bool-cases (class == self_only)) [
    | inl e ↦ rw e refl
    | inr e ↦ rw e refl
  ]

  classify_all-AllNamed :
      (parent_set self_set : List Text) (ips : List (Text × Text)) (hosts : List Text) (h : History)
      → AllNamed (classify_all net timeout zone parent_set self_set ips hosts h).0
  unfolding classify_all
  classify_all-AllNamed parent_set self_set ips [] h = tt
  classify_all-AllNamed parent_set self_set ips (host ∷ hosts) h = (
    classification_result-Named zone host (known_ip host ips)
        (classify_host host parent_set self_set) _
        (stealth_metrics-known (classify_host host parent_set self_set) host h),
    classify_all-AllNamed parent_set self_set ips hosts _,
  )

  pub probe_ns_classification-AllNamed :
      (ns : List Nameserver) (d : DelegationResult) (h : History)
      → AllNamed (probe_ns_classification net timeout zone ns d h).0
  unfolding probe_ns_classification
  probe_ns_classification-AllNamed ns d h = classify_all-AllNamed _ _ _ _ _

  check_target-Named :
      (target : Text) (c : MxCaches) (h : History)
      → Named (check_target net timeout zone target c h).0.0
  unfolding check_target are_named contains ◌==◌
  check_target-Named target c h = refl

  check_validity-Named :
      (target : Text) (c : MxCaches) (h : History)
      → Named (check_validity net timeout zone target c h).0.0
  unfolding check_validity are_named contains ◌==◌
  check_validity-Named target c h = elim (Bool-cases (target == bytes ".")) [
    | inl e ↦ rw e refl
    | inr e ↦ rw e (check_target-Named target c h)
  ]

  info-Named : (r : MxRecord) → Named (mx_info_result zone r)
  unfolding are_named contains ◌==◌
  info-Named r = refl

  mx_loop-AllNamed :
      (rs : List MxRecord) (c : MxCaches) (h : History)
      → AllNamed (mx_loop net timeout zone c rs h).0
  unfolding mx_loop
  mx_loop-AllNamed [] c h = tt
  mx_loop-AllNamed (r ∷ rs) c h = elim (Bool-cases (contains c.emitted r.target)) [
    | inl e ↦ rw e (info-Named r, mx_loop-AllNamed rs c h)
    | inr e ↦ rw e (info-Named r, (check_validity-Named r.target _ h, mx_loop-AllNamed rs _ _))
  ]

  report_mx-AllNamed :
      (asked : Asked net timeout zone) (h : History)
      → AllNamed (report_mx net timeout zone asked h).0
  unfolding report_mx are_named
  report_mx-AllNamed (ip, err e) h = (refl, tt)
  report_mx-AllNamed (ip, ok rs) h = (refl, mx_loop-AllNamed _ no_caches h)

  pub probe_mx-AllNamed :
      (ns : List Nameserver) (h : History) → AllNamed (probe_mx net timeout zone ns h).0
  unfolding probe_mx
  probe_mx-AllNamed [] h = tt
  probe_mx-AllNamed (n ∷ ns) h =
      let (asked, h') = first_answer net timeout zone (n ∷ ns) ([], ok []) h in
      report_mx-AllNamed asked h'

-- An information result under a condition.
when-AllNamed :
    (b : Bool) (zone metric label value : Text)
    → contains gauge_names metric ≡ true
    → AllNamed (when b (email_info zone metric label value))
unfolding are_named
when-AllNamed true zone metric label value h = (rw h refl, tt)
when-AllNamed false zone metric label value h = tt

spf_results-AllNamed : (zone : Text) (s : SpfResult) → AllNamed (spf_results zone s)
unfolding are_named contains ◌==◌
spf_results-AllNamed zone s =
    let record_info =
      when-AllNamed s.present zone (bytes "spf_record") (bytes "record")
        (join (bytes " | ") s.records) refl in
    let terminal =
      when-AllNamed (s.present && eqb s.record_count 1) zone (bytes "spf_terminal_all")
        (bytes "qualifier") s.qualifier refl in
    (refl, All-append Named _ _ record_info terminal)

dmarc_results-AllNamed : (zone : Text) (d : DmarcResult) → AllNamed (dmarc_results zone d)
unfolding are_named contains ◌==◌
dmarc_results-AllNamed zone d =
    let policy =
      when-AllNamed (d.present && d.valid) zone (bytes "dmarc_policy") (bytes "policy") d.policy
        refl in
    let record_info =
      when-AllNamed d.present zone (bytes "dmarc_record") (bytes "record") d.raw refl in
    let subdomains =
      when-AllNamed (not (is_nil d.subdomain_policy)) zone (bytes "dmarc_sp_policy")
        (bytes "policy") d.subdomain_policy refl in
    (refl, All-append Named _ _ policy (All-append Named _ _ record_info subdomains))

budget_result-Named : (zone : Text) (counted : ℕ × Bool) → Named (budget_result zone counted)
unfolding are_named contains ◌==◌
budget_result-Named zone (count, complete) = refl

module _ (net : Net) (timeout : ℕ) (zone : Text) where
  lookup_budget-AllNamed :
      (s : SpfResult) (h : History) → AllNamed (lookup_budget net timeout zone s h).0
  unfolding lookup_budget count_lookups
  lookup_budget-AllNamed s h = elim (Bool-cases (s.present && (eqb s.record_count 1 && s.valid))) [
    | inl e ↦ rw e (budget_result-Named zone _, tt)
    | inr e ↦ rw e tt
  ]

  spf_part-AllNamed :
      (txts : Option (List Text)) (h : History) → AllNamed (spf_part net timeout zone txts h).0
  unfolding spf_part
  spf_part-AllNamed none h = tt
  spf_part-AllNamed (some txts) h =
      All-append Named (spf_results zone (analyze_spf txts)) _
        (spf_results-AllNamed zone (analyze_spf txts)) (lookup_budget-AllNamed (analyze_spf txts) h)

  dmarc_part-AllNamed : (txts : Option (List Text)) → AllNamed (dmarc_part net timeout zone txts)
  unfolding dmarc_part
  dmarc_part-AllNamed none = tt
  dmarc_part-AllNamed (some txts) = dmarc_results-AllNamed zone (analyze_dmarc txts)

  pub probe_email_auth-AllNamed :
      (ns : List Nameserver) (h : History) → AllNamed (probe_email_auth net timeout zone ns h).0
  unfolding probe_email_auth
  probe_email_auth-AllNamed ns h =
      let (spf_txts, h1) = fetch_txt_records net timeout zone ns h in
      let (spf, h2) = spf_part net timeout zone spf_txts h1 in
      let (dmarc_txts, h3) =
        fetch_txt_records net timeout (bytes "_dmarc." ++ net.fqdn zone) ns h2 in
      All-append Named spf (dmarc_part net timeout zone dmarc_txts) (spf_part-AllNamed spf_txts h1)
        (dmarc_part-AllNamed dmarc_txts)
