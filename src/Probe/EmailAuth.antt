-- ===== src/Probe/EmailAuth.antt =====
-- prober/email_auth.go: the SPF and DMARC records of a zone.
pub mod Bounds
use dnshealth_exporter.Prelude.{
  ℕ, Bool, not, ◌&&◌, Option, none, some, List, [], ◌∷◌, ◌++◌, ◌>>=◌, return, if◌then◌else◌, is_nil,
  ltb, eqb,
}
use dnshealth_exporter.Text.{Text, bytes, join}
use dnshealth_exporter.Dns.{Net, Query, Outcome, M, type_txt, question}
use dnshealth_exporter.Dns.Errors.{ok, err}
use dnshealth_exporter.Retry.{exchange_with_retry}
use dnshealth_exporter.Resolver.{Nameserver}
use dnshealth_exporter.Spf.{SpfResult, analyze_spf}
use dnshealth_exporter.Spf.Lookup.{count_spf_lookups, spf_max_lookups}
use dnshealth_exporter.Spf.Resolve.{resolve_spf_record, txt_records, is_answer}
use dnshealth_exporter.Dmarc.{DmarcResult, analyze_dmarc}
use dnshealth_exporter.Probe.{ProbeResult, zone_result, bool_to_float}

abbrev pub email_check : Text
email_check = bytes "email_auth"

-- A result with metrics only, and one that carries a text as a label.
abbrev pub email_metrics : Text → List (Text × ℕ) → ProbeResult
email_metrics zone metrics = record (zone_result zone email_check) { metrics = metrics }

abbrev pub email_info : Text → Text → Text → Text → ProbeResult
email_info zone metric label value = record (zone_result zone email_check) {
  metrics = (metric, 1) ∷ [];
  labels = (label, value) ∷ [];
}

-- The results of an `if` with no else.
abbrev pub when : Bool → ProbeResult → List ProbeResult
when b r = if b then r ∷ [] else []

abbrev pub spf_results : Text → SpfResult → List ProbeResult
spf_results zone s =
    email_metrics zone (
      (bytes "spf_present", bool_to_float s.present)
      ∷ (bytes "spf_record_count", s.record_count)
      ∷ (bytes "spf_valid", bool_to_float s.valid)
      ∷ [])
    ∷ (when s.present
          (email_info zone (bytes "spf_record") (bytes "record") (join (bytes " | ") s.records))
        ++ when (s.present && eqb s.record_count 1)
            (email_info zone (bytes "spf_terminal_all") (bytes "qualifier") s.qualifier))

abbrev pub budget_result : Text → ℕ × Bool → ProbeResult
budget_result zone (count, complete) = email_metrics zone (
    (bytes "spf_lookup_count", count)
    ∷ (bytes "spf_lookup_budget_exceeded", bool_to_float (ltb spf_max_lookups count))
    ∷ (bytes "spf_lookup_eval_complete", bool_to_float complete)
    ∷ [])

abbrev pub dmarc_results : Text → DmarcResult → List ProbeResult
dmarc_results zone d =
    email_metrics zone (
      (bytes "dmarc_present", bool_to_float d.present)
      ∷ (bytes "dmarc_valid", bool_to_float d.valid)
      ∷ (bytes "dmarc_rua_present", bool_to_float d.rua)
      ∷ (bytes "dmarc_ruf_present", bool_to_float d.ruf)
      ∷ [])
    ∷ (when (d.present && d.valid)
          (email_info zone (bytes "dmarc_policy") (bytes "policy") d.policy)
        ++ (when d.present (email_info zone (bytes "dmarc_record") (bytes "record") d.raw)
            ++ when (not (is_nil d.subdomain_policy))
                (email_info zone (bytes "dmarc_sp_policy") (bytes "policy") d.subdomain_policy)))

module _ (net : Net) (timeout : ℕ) where
  -- An answer ends the loop; a failure or another rcode goes on to the next server.
  answer_or : Outcome → M (Option (List Text)) → M (Option (List Text))
  unfolding txt_records
  answer_or (err e) rest = rest
  answer_or (ok r) rest = if is_answer r.rcode then return (some (txt_records r.answer)) else rest

  fetch_from : Query → List Nameserver → M (Option (List Text))
  unfolding answer_or exchange_with_retry
  fetch_from q [] = return none
  fetch_from q (n ∷ ns) = do
    outcome ← exchange_with_retry net timeout q (net.resolve_address n.ip)
    answer_or outcome (fetch_from q ns)

  unfoldable pub fetch_txt_records : Text → List Nameserver → M (Option (List Text))
  unfolding fetch_from
  fetch_txt_records name nameservers = fetch_from (question (net.fqdn name) type_txt) nameservers

  module _ (zone : Text) where
    unfoldable pub count_lookups : Text → M (List ProbeResult)
    unfolding count_spf_lookups resolve_spf_record
    count_lookups rec = do
      counted ← count_spf_lookups (resolve_spf_record net timeout) rec
      return (budget_result zone counted ∷ [])

    -- The lookup budget, for a single valid record.
    unfoldable pub lookup_budget : SpfResult → M (List ProbeResult)
    unfolding count_lookups
    lookup_budget s =
        if s.present && (eqb s.record_count 1 && s.valid) then count_lookups s.raw else return []

    unfoldable pub spf_part : Option (List Text) → M (List ProbeResult)
    unfolding lookup_budget analyze_spf
    spf_part none = return []
    spf_part (some txts) = do
      budget ← lookup_budget (analyze_spf txts)
      return (spf_results zone (analyze_spf txts) ++ budget)

    unfoldable pub dmarc_part : Option (List Text) → List ProbeResult
    unfolding analyze_dmarc
    dmarc_part none = []
    dmarc_part (some txts) = dmarc_results zone (analyze_dmarc txts)

    unfoldable pub probe_email_auth : List Nameserver → M (List ProbeResult)
    unfolding spf_part dmarc_part fetch_txt_records
    probe_email_auth nameservers = do
      spf_txts ← fetch_txt_records zone nameservers
      spf ← spf_part spf_txts
      dmarc_txts ← fetch_txt_records (bytes "_dmarc." ++ net.fqdn zone) nameservers
      return (spf ++ dmarc_part dmarc_txts)
