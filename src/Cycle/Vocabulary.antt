-- ===== src/Cycle/Vocabulary.antt =====
-- The names of the metrics that the probers report.
pub mod Probers
pub mod MxEmail
pub mod Cycles
pub mod Disjoint
pub mod Emitted
use dnshealth_exporter.Prelude.{ℕ, Bool, List, [], ◌∷◌, ◌≡◌, true, all, All}
use dnshealth_exporter.Text.{Text, bytes, contains}
use dnshealth_exporter.Probe.{ProbeResult}

-- Without their prefix, in the order of the probers' files; Disjoint has the results report no other,
-- and Emitted a network on which each is reported.
abbrev pub gauge_names : List Text
gauge_names =
    bytes "soa_serial"
    ∷ bytes "soa_refresh_seconds"
    ∷ bytes "soa_retry_seconds"
    ∷ bytes "soa_expire_seconds"
    ∷ bytes "soa_minimum_seconds"
    ∷ bytes "soa_mname"
    ∷ bytes "soa_mname_in_ns_set"
    ∷ bytes "soa_mname_resolves"
    ∷ bytes "ns_recursion_available"
    ∷ bytes "ns_record"
    ∷ bytes "ns_glue"
    ∷ bytes "ns_hostname_syntax_valid"
    ∷ bytes "ns_hostname_is_cname"
    ∷ bytes "ns_classification"
    ∷ bytes "ns_stealth_reachable"
    ∷ bytes "mx_info"
    ∷ bytes "mx_resolves"
    ∷ bytes "mx_is_cname"
    ∷ bytes "mx_syntax_valid"
    ∷ bytes "spf_present"
    ∷ bytes "spf_record_count"
    ∷ bytes "spf_valid"
    ∷ bytes "spf_record"
    ∷ bytes "spf_terminal_all"
    ∷ bytes "spf_lookup_count"
    ∷ bytes "spf_lookup_budget_exceeded"
    ∷ bytes "spf_lookup_eval_complete"
    ∷ bytes "dmarc_present"
    ∷ bytes "dmarc_valid"
    ∷ bytes "dmarc_rua_present"
    ∷ bytes "dmarc_ruf_present"
    ∷ bytes "dmarc_policy"
    ∷ bytes "dmarc_record"
    ∷ bytes "dmarc_sp_policy"
    ∷ []

-- Every metric has one of these names.
unfoldable pub are_named : List (Text × ℕ) → Bool
unfolding contains
are_named = all (λ m. contains gauge_names m.0)

abbrev pub AllNamed : List ProbeResult → Type 0
AllNamed = All (λ r. are_named r.metrics ≡ true)
