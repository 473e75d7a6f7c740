-- ===== src/Cycle/Run/Metrics.antt =====
-- The gauges of the runner after a whole cycle.
use dnshealth_exporter.Prelude.{
  ℕ, Bool, true, false, ◌&&◌, Option, none, some, List, [], ◌∷◌, ◌≡◌, refl, ap, ◌∙◌, if◌then◌else◌,
  is_nil, any, count, eqb,
}
use dnshealth_exporter.Text.{Text, bytes, ◌==◌, contains, lookup}
use dnshealth_exporter.Dns.{Net}
use dnshealth_exporter.Probe.{ProbeResult}
use dnshealth_exporter.Cycle.{ProbeFn}
use dnshealth_exporter.Cycle.Gauges.{VecLib}
use dnshealth_exporter.Cycle.Aggregate.{
  Gauges, MxRr, MxState, reset_gauges, count_query, count_queries, aggregate_classification,
  init_mx, mx_info_or, priority_of, count_validity, collect_mx, is_null_rr, set_null, mark_null,
  zone_rr_count, aggregate_mx,
}
use dnshealth_exporter.Cycle.Aggregate.Classification.{
  IsClass, classifies, aggregate_classification-value,
}
use dnshealth_exporter.Cycle.Aggregate.Mx.{rrs_of, null_in, aggregate_mx-null}
use dnshealth_exporter.Cycle.Aggregate.Priorities.{least, of_zone, of_target}
use dnshealth_exporter.Cycle.Aggregate.Primary.{primary, aggregate_mx-primary}
use dnshealth_exporter.Cycle.Run.{Runner, ZoneEnv, apply_report, report_zone, probe_zones, run}

module _ (lib : VecLib) where
  open lib use {Vec, value}

  -- The aggregation of the MX results leaves the counts of the classification.
  if-keeps_counts :
      (b : Bool) (r : ProbeResult) (i p : Option ℕ) (s : MxState lib)
      → priority_of (lookup (bytes "priority") r.labels) ≡ p
      → (if b then mx_info_or lib r i s else s).gauges.ns_classification_count
        ≡ s.gauges.ns_classification_count
  unfolding count_validity
  if-keeps_counts false r i p s e = refl
  if-keeps_counts true r none p s e = refl
  if-keeps_counts true r (some i) none s e = rw e refl
  if-keeps_counts true r (some i) (some p) s e = rw e refl

  collect_mx-keeps_counts :
      (rs : List ProbeResult) (s : MxState lib)
      → (collect_mx lib rs s).gauges.ns_classification_count ≡ s.gauges.ns_classification_count
  unfolding collect_mx
  collect_mx-keeps_counts [] s = refl
  collect_mx-keeps_counts (r ∷ rs) s =
      let i = lookup (bytes "mx_info") r.metrics in
      collect_mx-keeps_counts rs (if r.check == bytes "mx" then mx_info_or lib r i s else s)
      ∙ if-keeps_counts (r.check == bytes "mx") r i _ s refl

  init_mx-keeps_counts :
      (zones : List Text) (g : Gauges lib)
      → (init_mx lib zones g).ns_classification_count ≡ g.ns_classification_count
  unfolding init_mx
  init_mx-keeps_counts [] g = refl
  init_mx-keeps_counts (z ∷ zs) g = init_mx-keeps_counts zs _

  if_null-keeps_counts :
      (b : Bool) (rrs : List MxRr) (zone : Text) (g : Gauges lib)
      → (if b then set_null lib rrs zone g else g).ns_classification_count
        ≡ g.ns_classification_count
  if_null-keeps_counts true rrs zone g = refl
  if_null-keeps_counts false rrs zone g = refl

  mark_null-keeps_counts :
      (rrs rs : List MxRr) (g : Gauges lib)
      → (mark_null lib rrs rs g).ns_classification_count ≡ g.ns_classification_count
  unfolding mark_null
  mark_null-keeps_counts rrs [] g = refl
  mark_null-keeps_counts rrs (r ∷ rs) g =
      mark_null-keeps_counts rrs rs (if is_null_rr r then set_null lib rrs r.zone g else g)
      ∙ if_null-keeps_counts (is_null_rr r) rrs r.zone g

  aggregate_mx-keeps_counts :
      (zones : List Text) (rs : List ProbeResult) (g : Gauges lib)
      → (aggregate_mx lib zones rs g).ns_classification_count ≡ g.ns_classification_count
  unfolding aggregate_mx
  aggregate_mx-keeps_counts zones rs g =
      let s = collect_mx lib rs (record { gauges = init_mx lib zones g; rrs = []; minima = [] }) in
      mark_null-keeps_counts s.rrs s.rrs s.gauges
      ∙ collect_mx-keeps_counts rs _
      ∙ init_mx-keeps_counts zones g

  -- The counters of the servers leave mx_is_primary.
  count_query-keeps_primary :
      (r : ProbeResult) (g : Gauges lib) → (count_query lib r g).mx_is_primary ≡ g.mx_is_primary
  count_query-keeps_primary r g = by_ip (is_nil r.ip)
    where
      by_ip :
          (b : Bool)
          → (if b then g else record g {
            dns_queries = lib.add g.dns_queries (r.ip ∷ []) 1;
            dns_duration = lib.add g.dns_duration (r.ip ∷ []) r.duration;
            dns_timeouts =
                (if r.timed_out then lib.add g.dns_timeouts (r.ip ∷ []) 1 else g.dns_timeouts);
          }).mx_is_primary
            ≡ g.mx_is_primary
      by_ip true = refl
      by_ip false = refl

  count_queries-keeps_primary :
      (rs : List ProbeResult) (g : Gauges lib)
      → (count_queries lib rs g).mx_is_primary ≡ g.mx_is_primary
  unfolding count_queries
  count_queries-keeps_primary [] g = refl
  count_queries-keeps_primary (r ∷ rs) g =
      count_queries-keeps_primary rs (count_query lib r g) ∙ count_query-keeps_primary r g

  -- What the gauges of a zone show of the results of a cycle.
  pub record Shows (rs : List ProbeResult) (g : Gauges lib) (zone : Text) : Type 0 where
    pub classes_ok :
        (class : Text)
        → IsClass class
        → value g.ns_classification_count (zone ∷ class ∷ [])
          ≡ some (count (classifies zone class) rs)
    pub has_null_ok :
        value g.mx_has_null_mx_rr (zone ∷ [])
        ≡ some (if any (null_in zone) (rrs_of rs) then 1 else 0)
    pub null_ok :
        value g.null_mx (zone ∷ [])
        ≡ some (
            if any (null_in zone) (rrs_of rs) && eqb (zone_rr_count (rrs_of rs) zone) 1
            then 1
            else 0)
    pub primary_ok :
        (target : Text)
        → value g.mx_is_primary (zone ∷ target ∷ [])
          ≡ primary none
              (least (of_zone zone) (rrs_of rs))
              (least (of_target zone target) (rrs_of rs))

  module _ (probers : Net → ℕ → List ProbeFn) (is_ipv6 : Text → Bool) (timeout : ℕ)
      (env : Text → ZoneEnv lib) where
    probe_zones-keeps_primary :
        (zones : List Text) (r : Runner lib)
        → (probe_zones lib probers is_ipv6 timeout env zones r).1.gauges.mx_is_primary
          ≡ r.gauges.mx_is_primary
    unfolding probe_zones apply_report
    probe_zones-keeps_primary [] r = refl
    probe_zones-keeps_primary (zone ∷ zones) r = probe_zones-keeps_primary zones (
        apply_report lib zone (env zone).stored_at
          (report_zone lib probers is_ipv6 timeout env zone r) r)

    -- After a cycle the gauges of a configured zone show the results of this cycle and of no other: the
    -- number of the hosts of each class, whether there is a Null MX record and whether it is the only
    -- record, and for each MX target whether it has the least priority of the zone, with no value for
    -- the targets of former cycles.
    pub run-Shows :
        (zones order : List Text) (start stop : ℕ) (r : Runner lib) (zone : Text)
        → contains zones zone ≡ true
        → let out = run lib probers is_ipv6 timeout env zones order start stop r in
          Shows out.0.results out.1.gauges zone
    unfolding run aggregate_classification reset_gauges
    run-Shows zones order start stop r zone h =
        let p =
          probe_zones lib probers is_ipv6 timeout env order
            (record r { gauges = reset_gauges lib r.gauges }) in
        let g0 = count_queries lib p.0 p.1.gauges in
        let g1 = aggregate_classification lib zones p.0 g0 in
        let (a, b) = aggregate_mx-null lib zones p.0 g1 zone h in
        record {
          classes_ok = λ class k.
              ap (λ (v : Vec). value v (zone ∷ class ∷ [])) (aggregate_mx-keeps_counts zones p.0 g1)
              ∙ aggregate_classification-value lib zones p.0 g0 zone class h k;
          has_null_ok = a;
          null_ok = b;
          primary_ok = λ target.
              aggregate_mx-primary lib zones p.0 g1 zone target
              ∙ ap
                  (λ (o : Option ℕ).
                    primary o (least (of_zone zone) (rrs_of p.0))
                      (least (of_target zone target) (rrs_of p.0)))
                  (ap (λ (v : Vec). value v (zone ∷ target ∷ []))
                      (count_queries-keeps_primary p.0 p.1.gauges
                        ∙ probe_zones-keeps_primary order _)
                    ∙ lib.value_reset r.gauges.mx_is_primary (zone ∷ target ∷ []));
        }
