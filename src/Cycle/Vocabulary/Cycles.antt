-- ===== src/Cycle/Vocabulary/Cycles.antt =====
-- The metrics of all results of a cycle have known names.
use dnshealth_exporter.Prelude.{
  ℕ, Bool, true, Option, none, some, List, [], ◌∷◌, ◌≡◌, All, All-append,
}
use dnshealth_exporter.Text.{Text}
use dnshealth_exporter.Dns.{Net, History}
use dnshealth_exporter.Dns.Errors.{Result, ok, err}
use dnshealth_exporter.Resolver.{Nameserver}
use dnshealth_exporter.Resolver.Delegation.{DelegationResult, walk_delegation}
use dnshealth_exporter.Probe.{ProbeResult}
use dnshealth_exporter.Cache
use dnshealth_exporter.Cycle.{
  ProbeFn, probers, kept, run_probers, probe_with, probe_delegated, after_walk, probe_zone, augment,
}
use dnshealth_exporter.Cycle.Nameservers.{build_initial_nameservers, hosts_needing_augmentation}
use dnshealth_exporter.Cycle.Gauges.{VecLib}
use dnshealth_exporter.Cycle.Aggregate.{reset_gauges}
use dnshealth_exporter.Cycle.Run.{Runner, ZoneEnv, apply_report, report_zone, probe_zones, run}
use dnshealth_exporter.Cycle.Vocabulary.{are_named, AllNamed}
use dnshealth_exporter.Cycle.Vocabulary.Probers.{
  probe_soa-AllNamed, probe_recursion-AllNamed, probe_glue-AllNamed, probe_ns_hostname-AllNamed,
}
use dnshealth_exporter.Cycle.Vocabulary.MxEmail.{
  probe_ns_classification-AllNamed, probe_mx-AllNamed, probe_email_auth-AllNamed,
}

abbrev Named : ProbeResult → Type 0
Named r = are_named r.metrics ≡ true

module _ (net : Net) (timeout : ℕ) where
  -- A prober whose results have metrics of known names.
  abbrev IsNaming : ProbeFn → Type 0
  IsNaming fn =
      (zone : Text) (nss : List Nameserver) (d : DelegationResult) (h : History)
      → AllNamed (kept net timeout (fn zone nss d h).0)

  probers-IsNaming : All IsNaming (probers net timeout)
  unfolding probers
  probers-IsNaming = (
    λ zone nss d h. probe_soa-AllNamed net timeout zone nss d h,
    (
      λ zone nss d h. probe_recursion-AllNamed net timeout zone nss h,
      (
        λ zone nss d h. probe_glue-AllNamed net timeout zone nss d h,
        (
          λ zone nss d h. probe_ns_hostname-AllNamed net timeout zone nss h,
          (
            λ zone nss d h. probe_ns_classification-AllNamed net timeout zone nss d h,
            (
              λ zone nss d h. probe_mx-AllNamed net timeout zone nss h,
              (λ zone nss d h. probe_email_auth-AllNamed net timeout zone nss h, tt),
            ),
          ),
        ),
      ),
    ),
  )

  run_probers-AllNamed :
      (fns : List ProbeFn) (zone : Text) (nss : List Nameserver) (d : DelegationResult)
      (h : History)
      → All IsNaming fns
      → AllNamed (run_probers net timeout fns zone nss d h).0
  unfolding run_probers
  run_probers-AllNamed [] zone nss d h p = tt
  run_probers-AllNamed (fn ∷ fns) zone nss d h (p, ps) =
      let (rs, h1) = fn zone nss d h in
      All-append Named (kept net timeout rs) _ (p zone nss d h)
        (run_probers-AllNamed fns zone nss d h1 ps)

  module _ (fns : List ProbeFn) (naming : All IsNaming fns) (is_ipv6 : Text → Bool)
      (zone : Text) where
    probe_with-AllNamed :
        (d : DelegationResult) (nss : List Nameserver) (h : History)
        → AllNamed (probe_with net timeout fns is_ipv6 zone d nss h).0
    unfolding probe_with
    probe_with-AllNamed d [] h = tt
    probe_with-AllNamed d (n ∷ ns) h = run_probers-AllNamed fns zone (n ∷ ns) d h naming

    probe_delegated-AllNamed :
        (d : DelegationResult) (h : History)
        → AllNamed (probe_delegated net timeout fns is_ipv6 zone d h).0
    unfolding probe_delegated
    probe_delegated-AllNamed d h =
        let (known, h1) =
          augment net timeout (build_initial_nameservers d.ns_records)
            (hosts_needing_augmentation is_ipv6 d.ns_records) h in
        probe_with-AllNamed d known.0 h1

    after_walk-AllNamed :
        (walked : Result DelegationResult) (h : History)
        → AllNamed (after_walk net timeout fns is_ipv6 zone walked h).0.results
    unfolding after_walk
    after_walk-AllNamed (err e) h = tt
    after_walk-AllNamed (ok d) h = probe_delegated-AllNamed d h

    pub probe_zone-AllNamed :
        (cached : Option DelegationResult) (h : History)
        → AllNamed (probe_zone net timeout fns is_ipv6 zone cached h).0.results
    unfolding probe_zone
    probe_zone-AllNamed (some d) h = probe_delegated-AllNamed d h
    probe_zone-AllNamed none h =
        let (walked, h1) = walk_delegation net timeout zone h in after_walk-AllNamed walked h1

module _ (lib : VecLib) (is_ipv6 : Text → Bool) (timeout : ℕ) (env : Text → ZoneEnv lib) where
  probe_zones-AllNamed :
      (zones : List Text) (r : Runner lib)
      → AllNamed (probe_zones lib probers is_ipv6 timeout env zones r).0
  unfolding probe_zones report_zone
  probe_zones-AllNamed [] r = tt
  probe_zones-AllNamed (zone ∷ zones) r =
      let e = env zone in
      let report = report_zone lib probers is_ipv6 timeout env zone r in
      All-append Named report.results _
        (probe_zone-AllNamed e.net timeout (probers e.net timeout) (probers-IsNaming e.net timeout)
          is_ipv6 zone (Cache.get r.cache e.looked_at zone) [])
        (probe_zones-AllNamed zones (apply_report lib zone e.stored_at report r))

  pub run-AllNamed :
      (zones order : List Text) (start stop : ℕ) (r : Runner lib)
      → AllNamed (run lib probers is_ipv6 timeout env zones order start stop r).0.results
  unfolding run
  run-AllNamed zones order start stop r =
      probe_zones-AllNamed order (record r { gauges = reset_gauges lib r.gauges })
