-- ===== src/Probe/EmailAuth/Bounds.antt =====
-- The queries of the email authentication prober on one zone.
use dnshealth_exporter.Prelude.{
  ℕ, ◌+◌, ◌*◌, ◌≤◌, ◌&&◌, Option, none, some, List, [], ◌∷◌, ◌++◌, arith, length, Bool-cases, inl,
  inr, eqb,
}
use dnshealth_exporter.Text.{Text, bytes}
use dnshealth_exporter.Dns.{Net, Query, Outcome, M, History, question, type_txt}
use dnshealth_exporter.Dns.Queries.{queries}
use dnshealth_exporter.Dns.Costs.{Costs}
use dnshealth_exporter.Dns.Errors.{ok, err}
use dnshealth_exporter.Retry.{exchange_with_retry}
use dnshealth_exporter.Retry.Laws.{queries-exchange_with_retry}
use dnshealth_exporter.Resolver.{Nameserver}
use dnshealth_exporter.Resolver.Hostnames.Bounds.{ListsAtMost}
use dnshealth_exporter.Spf.{SpfResult, analyze_spf}
use dnshealth_exporter.Spf.Lookup.Bounds.{count_spf_lookups_fetches}
use dnshealth_exporter.Spf.Resolve.{resolve_spf_record, is_answer}
use dnshealth_exporter.Spf.Resolve.Bounds.{record_bound, queries-resolve_spf_record}
use dnshealth_exporter.Probe.EmailAuth.{
  answer_or, fetch_from, fetch_txt_records, count_lookups, lookup_budget, spf_part,
  probe_email_auth,
}

module _ (net : Net) (timeout : ℕ) (n : ℕ) (few : ListsAtMost n net) where
  Costs-answer_or :
      (b : ℕ) (o : Outcome) (rest : M (Option (List Text)))
      → Costs b rest
      → Costs b (answer_or net timeout o rest)
  unfolding answer_or
  Costs-answer_or b (err e) rest k h = k h
  Costs-answer_or b (ok r) rest k h = elim (Bool-cases (is_answer r.rcode)) [
    | inl e ↦ rw e (omega arith)
    | inr e ↦ rw e (k h)
  ]

  Costs-fetch_from :
      (q : Query) (ns : List Nameserver) → Costs (2 * length ns) (fetch_from net timeout q ns)
  unfolding fetch_from
  Costs-fetch_from q [] h = omega arith
  Costs-fetch_from q (s ∷ ns) h =
      let x = exchange_with_retry net timeout q (net.resolve_address s.ip) h in
      omega (
        arith,
        (queries-exchange_with_retry net timeout q (net.resolve_address s.ip) h).1,
        Costs-answer_or (2 * length ns) x.0 (fetch_from net timeout q ns) (Costs-fetch_from q ns)
            x.1,
      )

  Costs-lookup_budget :
      (zone : Text) (s : SpfResult) → Costs (10 * record_bound n) (lookup_budget net timeout zone s)
  unfolding lookup_budget count_lookups
  Costs-lookup_budget zone s h =
      elim (Bool-cases (s.present && (eqb s.record_count 1 && s.valid))) [
        | inl e ↦ rw e (
            count_spf_lookups_fetches (resolve_spf_record net timeout) queries (record_bound n)
              (queries-resolve_spf_record net timeout n few) s.raw h)
        | inr e ↦ rw e (omega arith)
      ]

  Costs-spf_part :
      (zone : Text) (o : Option (List Text))
      → Costs (10 * record_bound n) (spf_part net timeout zone o)
  unfolding spf_part
  Costs-spf_part zone none h = omega arith
  Costs-spf_part zone (some txts) h = Costs-lookup_budget zone (analyze_spf txts) h

  -- Where no reply lists more than n name servers, the email authentication prober sends at most four
  -- queries to each of the zone's servers, and besides them those of ten records as
  -- queries-resolve_spf_record bounds them, whatever the SPF records of other domains say.
  pub queries-probe_email_auth :
      (zone : Text) (nameservers : List Nameserver) (h : History)
      → queries (probe_email_auth net timeout zone nameservers h).1
        ≤ queries h + (4 * length nameservers + 10 * record_bound n)
  unfolding probe_email_auth fetch_txt_records
  queries-probe_email_auth zone nameservers h =
      let q1 = question (net.fqdn zone) type_txt in
      let q2 = question (net.fqdn (bytes "_dmarc." ++ net.fqdn zone)) type_txt in
      let x = fetch_from net timeout q1 nameservers h in
      let y = spf_part net timeout zone x.0 x.1 in
      omega (
        arith,
        Costs-fetch_from q1 nameservers h,
        Costs-spf_part zone x.0 x.1,
        Costs-fetch_from q2 nameservers y.1,
      )
