-- ===== src/Cycle/Aggregate/MxCounts.antt =====
-- The counts of the MX records of a zone after a cycle.
use dnshealth_exporter.Prelude.{
  ℕ, ◌+◌, Bool, true, false, ◌&&◌, Option, none, some, List, [], ◌∷◌, ◌≡◌, inl, inr, refl, ap, ◌∙◌,
  arith, if◌then◌else◌, count, Bool-cases,
}
use dnshealth_exporter.Text.{Text, bytes, ◌==◌, contains, lookup}
use dnshealth_exporter.Text.Equality.{==_iff}
use dnshealth_exporter.Probe.{ProbeResult}
use dnshealth_exporter.Cycle.Gauges.Laws.{value-set_self, value-set_same}
use dnshealth_exporter.Cycle.Gauges.{VecLib, same_labels}
use dnshealth_exporter.Cycle.Aggregate.{
  Gauges, MxRr, MxState, is_one, inc_if, priority_of, target_label, note_rr, count_rr, mx_info_or,
  count_validity, collect_mx, is_null_rr, set_null, mark_null, init_mx, aggregate_mx,
}

abbrev pub is_some : Option ℕ → Bool
is_some none = false
is_some (some n) = true

-- A result behind which the loop reads on: one without mx_info, or with a readable priority.
abbrev pub reads_on : Option ℕ → Option ℕ → Bool
reads_on none p = true
reads_on (some i) p = is_some p

abbrev pub is_mx_of : Text → ProbeResult → Bool
is_mx_of zone r = r.check == bytes "mx" && r.zone == zone

unfoldable pub counts_record : Text → ProbeResult → Bool
unfolding lookup ◌==◌
counts_record zone r = is_mx_of zone r && is_some (lookup (bytes "mx_info") r.metrics)

-- A result that adds to the count of the results in which a metric is 1.
unfoldable pub counts_metric : Text → Text → ProbeResult → Bool
unfolding lookup ◌==◌
counts_metric metric zone r =
    is_mx_of zone r
    && (reads_on (lookup (bytes "mx_info") r.metrics)
          (priority_of (lookup (bytes "priority") r.labels))
        && is_one (lookup metric r.metrics))

module _ (lib : VecLib) where
  open lib use {Vec, set, add, value}

  -- A gauge that holds a number for a zone, and the number after more has been added.
  abbrev Holds : Text → Vec → ℕ → Type 0
  Holds zone v n = value v (zone ∷ []) ≡ some n

  inc-Holds :
      (b : Bool) (z zone : Text) (v : Vec) (n : ℕ)
      → Holds zone v n
      → Holds zone (inc_if lib b v z) (n + (if z == zone && b then 1 else 0))
  unfolding same_labels
  inc-Holds false z zone v n h = ground (arith, h)
  inc-Holds true z zone v n h =
      ground (arith, h, ==_iff z zone, lib.value_add v (z ∷ []) (zone ∷ []) 1)

  -- The four counts of a zone.
  pub record Tally (zone : Text) (g : Gauges lib) (records resolved cnames valid : ℕ) : Type 0 where
    pub records_ok : Holds zone g.mx_count records
    pub resolved_ok : Holds zone g.mx_resolved_count resolved
    pub cnames_ok : Holds zone g.mx_cname_count cnames
    pub valid_ok : Holds zone g.mx_syntax_valid_count valid

  abbrev one : Bool → ℕ
  one b = if b then 1 else 0

  validity-Tally :
      (r : ProbeResult) (s : MxState lib) (zone : Text) (a b c d : ℕ)
      → Tally zone s.gauges a b c d
      → Tally zone
          (count_validity lib r s).gauges
          a
          (b + one (r.zone == zone && is_one (lookup (bytes "mx_resolves") r.metrics)))
          (c + one (r.zone == zone && is_one (lookup (bytes "mx_is_cname") r.metrics)))
          (d + one (r.zone == zone && is_one (lookup (bytes "mx_syntax_valid") r.metrics)))
  unfolding count_validity
  validity-Tally r s zone a b c d t = record {
    records_ok = t.records_ok;
    resolved_ok =
        inc-Holds (is_one (lookup (bytes "mx_resolves") r.metrics)) r.zone zone
          s.gauges.mx_resolved_count b t.resolved_ok;
    cnames_ok =
        inc-Holds (is_one (lookup (bytes "mx_is_cname") r.metrics)) r.zone zone
          s.gauges.mx_cname_count c t.cnames_ok;
    valid_ok =
        inc-Holds (is_one (lookup (bytes "mx_syntax_valid") r.metrics)) r.zone zone
          s.gauges.mx_syntax_valid_count d t.valid_ok;
  }

  Tally-cast :
      (zone : Text) (g : Gauges lib) {a b c d a' b' c' d' : ℕ}
      → Tally zone g a b c d
      → a ≡ a'
      → b ≡ b'
      → c ≡ c'
      → d ≡ d'
      → Tally zone g a' b' c' d'
  Tally-cast zone g t x y z w = record {
    records_ok = t.records_ok ∙ ap some x;
    resolved_ok = t.resolved_ok ∙ ap some y;
    cnames_ok = t.cnames_ok ∙ ap some z;
    valid_ok = t.valid_ok ∙ ap some w;
  }

  -- A result with mx_info is counted before its priority is read.
  counted :
      (r : ProbeResult) (s : MxState lib) (zone : Text) (a b c d : ℕ)
      → Tally zone s.gauges a b c d
      → Tally zone (count_rr lib r s).gauges (a + one (r.zone == zone && true)) b c d
  counted r s zone a b c d t = record {
    records_ok = inc-Holds true r.zone zone s.gauges.mx_count a t.records_ok;
    resolved_ok = t.resolved_ok;
    cnames_ok = t.cnames_ok;
    valid_ok = t.valid_ok;
  }

  -- What a result that may carry mx_info and a priority adds, where it is one of the MX prober.
  abbrev adds : Bool → Text → ProbeResult → Option ℕ → Option ℕ → Text → ℕ
  adds b metric r i p zone =
      one ((b && r.zone == zone) && (reads_on i p && is_one (lookup metric r.metrics)))

  result-Tally :
      (e : Bool) (r : ProbeResult) (i p : Option ℕ) (s : MxState lib) (zone : Text) (a b c d : ℕ)
      → priority_of (lookup (bytes "priority") r.labels) ≡ p
      → Tally zone s.gauges a b c d
      → Tally zone
          (if e then mx_info_or lib r i s else s).gauges
          (a + one ((e && r.zone == zone) && is_some i))
          (b + adds e (bytes "mx_resolves") r i p zone)
          (c + adds e (bytes "mx_is_cname") r i p zone)
          (d + adds e (bytes "mx_syntax_valid") r i p zone)
  result-Tally false r i p s zone a b c d q t =
      Tally-cast zone s.gauges t (omega arith) (omega arith) (omega arith) (omega arith)
  result-Tally true r none p s zone a b c d q t =
      Tally-cast zone _ (validity-Tally r s zone a b c d t) (ground arith) refl refl refl
  result-Tally true r (some i) none s zone a b c d q t = rw q (
      Tally-cast zone _ (counted r s zone a b c d t) refl (ground arith) (ground arith)
        (ground arith))
  result-Tally true r (some i) (some p) s zone a b c d q t = rw q (
      validity-Tally r
        (note_rr lib (record { zone = r.zone; target = target_label r; priority = p })
          (count_rr lib r s))
        zone _ b c d (counted r s zone a b c d t))

  collect_mx-Tally :
      (rs : List ProbeResult) (s : MxState lib) (zone : Text) (a b c d : ℕ)
      → Tally zone s.gauges a b c d
      → Tally zone
          (collect_mx lib rs s).gauges
          (a + count (counts_record zone) rs)
          (b + count (counts_metric (bytes "mx_resolves") zone) rs)
          (c + count (counts_metric (bytes "mx_is_cname") zone) rs)
          (d + count (counts_metric (bytes "mx_syntax_valid") zone) rs)
  unfolding collect_mx counts_record counts_metric
  collect_mx-Tally [] s zone a b c d t =
      Tally-cast zone s.gauges t (omega arith) (omega arith) (omega arith) (omega arith)
  collect_mx-Tally (r ∷ rs) s zone a b c d t =
      let e = r.check == bytes "mx" in
      let i = lookup (bytes "mx_info") r.metrics in
      let first = result-Tally e r i _ s zone a b c d refl t in
      Tally-cast zone _
        (collect_mx-Tally rs (if e then mx_info_or lib r i s else s) zone _ _ _ _ first)
        (omega arith) (omega arith) (omega arith) (omega arith)

  abbrev Same : Gauges lib → Gauges lib → Type 0
  Same g g' =
      (g'.mx_count ≡ g.mx_count)
      × (g'.mx_resolved_count ≡ g.mx_resolved_count)
      × (g'.mx_cname_count ≡ g.mx_cname_count)
      × (g'.mx_syntax_valid_count ≡ g.mx_syntax_valid_count)

  if_null-Same :
      (b : Bool) (rrs : List MxRr) (zone : Text) (g : Gauges lib)
      → Same g (if b then set_null lib rrs zone g else g)
  if_null-Same true rrs zone g = (refl, refl, refl, refl)
  if_null-Same false rrs zone g = (refl, refl, refl, refl)

  mark_null-Same : (rrs rs : List MxRr) (g : Gauges lib) → Same g (mark_null lib rrs rs g)
  unfolding mark_null
  mark_null-Same rrs [] g = (refl, refl, refl, refl)
  mark_null-Same rrs (r ∷ rs) g =
      let (a, b, c, d) = if_null-Same (is_null_rr r) rrs r.zone g in
      let (a', b', c', d') =
        mark_null-Same rrs rs (if is_null_rr r then set_null lib rrs r.zone g else g) in
      (a' ∙ a, b' ∙ b, c' ∙ c, d' ∙ d)

  Same-Tally :
      (zone : Text) (g g' : Gauges lib) (a b c d : ℕ)
      → Same g g'
      → Tally zone g a b c d
      → Tally zone g' a b c d
  Same-Tally zone g g' a b c d (x, y, z, w) t = record {
    records_ok = at x ∙ t.records_ok;
    resolved_ok = at y ∙ t.resolved_ok;
    cnames_ok = at z ∙ t.cnames_ok;
    valid_ok = at w ∙ t.valid_ok;
  }
    where
      at : {u v : Vec} → u ≡ v → value u (zone ∷ []) ≡ value v (zone ∷ [])
      at e = ap (λ v. value v (zone ∷ [])) e

  init_mx-keeps_Tally :
      (zones : List Text) (g : Gauges lib) (zone : Text)
      → Tally zone g 0 0 0 0
      → Tally zone (init_mx lib zones g) 0 0 0 0
  unfolding init_mx
  init_mx-keeps_Tally [] g zone t = t
  init_mx-keeps_Tally (z ∷ zs) g zone t = init_mx-keeps_Tally zs _ zone (record {
    records_ok = value-set_same lib _ (z ∷ []) _ 0 t.records_ok;
    resolved_ok = value-set_same lib _ (z ∷ []) _ 0 t.resolved_ok;
    cnames_ok = value-set_same lib _ (z ∷ []) _ 0 t.cnames_ok;
    valid_ok = value-set_same lib _ (z ∷ []) _ 0 t.valid_ok;
  })

  init_mx-Tally :
      (zones : List Text) (g : Gauges lib) (zone : Text)
      → contains zones zone ≡ true
      → Tally zone (init_mx lib zones g) 0 0 0 0
  unfolding init_mx contains
  init_mx-Tally [] g zone h = cc
  init_mx-Tally (z ∷ zs) g zone h = elim (Bool-cases (z == zone)) [
    | inl e ↦ rw ((==_iff z zone).0 e) (
        init_mx-keeps_Tally zs _ zone (record {
          records_ok = value-set_self lib _ _ 0;
          resolved_ok = value-set_self lib _ _ 0;
          cnames_ok = value-set_self lib _ _ 0;
          valid_ok = value-set_self lib _ _ 0;
        }))
    | inr e ↦ init_mx-Tally zs _ zone (rw e at h)
  ]

  -- For a configured zone the four MX counts are there after the aggregation: the number of the MX
  -- results of the zone that carry mx_info, and for each of the three checks of a target the number of
  -- those in which the check is 1, leaving out results with mx_info whose priority cannot be read.
  pub aggregate_mx-Tally :
      (zones : List Text) (rs : List ProbeResult) (g : Gauges lib) (zone : Text)
      → contains zones zone ≡ true
      → Tally zone
          (aggregate_mx lib zones rs g)
          (count (counts_record zone) rs)
          (count (counts_metric (bytes "mx_resolves") zone) rs)
          (count (counts_metric (bytes "mx_is_cname") zone) rs)
          (count (counts_metric (bytes "mx_syntax_valid") zone) rs)
  unfolding aggregate_mx
  aggregate_mx-Tally zones rs g zone h =
      let s0 : MxState lib = record { gauges = init_mx lib zones g; rrs = []; minima = [] } in
      let s = collect_mx lib rs s0 in
      let t =
        Same-Tally zone s.gauges (mark_null lib s.rrs s.rrs s.gauges) _ _ _ _
          (mark_null-Same s.rrs s.rrs s.gauges)
          (collect_mx-Tally rs s0 zone 0 0 0 0 (init_mx-Tally zones g zone h)) in
      record {
        records_ok = t.records_ok ∙ ap some (omega arith);
        resolved_ok = t.resolved_ok ∙ ap some (omega arith);
        cnames_ok = t.cnames_ok ∙ ap some (omega arith);
        valid_ok = t.valid_ok ∙ ap some (omega arith);
      }
