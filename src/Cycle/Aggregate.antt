-- ===== src/Cycle/Aggregate.antt =====
-- cycle/runner.go: the gauges and counters that Run derives from the results of a cycle.
pub mod Classification
pub mod Mx
pub mod Priorities
pub mod Primary
pub mod Counters
pub mod MxCounts
use dnshealth_exporter.Prelude.{
  ℕ, ◌+◌, Bool, true, false, not, ◌&&◌, ◌||◌, Option, none, some, List, [], ◌∷◌, ◌++◌,
  if◌then◌else◌, is_nil, eqb, ltb, count,
}
use dnshealth_exporter.Text.{Text, bytes, ◌==◌, lookup, insert}
use dnshealth_exporter.Text.Decimal.{parse_decimal}
use dnshealth_exporter.Probe.{ProbeResult}
use dnshealth_exporter.Probe.NsClassification.{self_only, parent_only, both}
use dnshealth_exporter.Cycle.Gauges.{VecLib}

-- One MX record as the runner collects it.
pub record MxRr : Type 0 where
  pub zone : Text
  pub target : Text
  pub priority : ℕ

-- perTargetMinPriority: the least priority of each target of each zone.
abbrev pub MinPriorities : Type 0
MinPriorities = List (Text × List (Text × ℕ))

abbrev pub lesser : Option ℕ → ℕ → ℕ
lesser none p = p
lesser (some old) p = if ltb p old then p else old

abbrev pub or_no_targets : Option (List (Text × ℕ)) → List (Text × ℕ)
or_no_targets none = []
or_no_targets (some ts) = ts

abbrev pub targets_of : Text → MinPriorities → List (Text × ℕ)
targets_of zone m = or_no_targets (lookup zone m)

unfoldable pub note_priority : MxRr → MinPriorities → MinPriorities
unfolding lookup insert
note_priority r m =
    insert r.zone
      (insert r.target (lesser (lookup r.target (targets_of r.zone m)) r.priority)
        (targets_of r.zone m))
      m

-- "0 ."
unfoldable pub is_null_rr : MxRr → Bool
unfolding ◌==◌
is_null_rr r = eqb r.priority 0 && r.target == bytes "."

-- zoneRRCount[zone]
unfoldable pub zone_rr_count : List MxRr → Text → ℕ
unfolding ◌==◌
zone_rr_count rrs zone = count (λ r. r.zone == zone) rrs

-- The least priority among the targets of a zone.
unfoldable pub zone_min : Option ℕ → List (Text × ℕ) → Option ℕ
zone_min least [] = least
zone_min least ((t, p) ∷ ts) = zone_min (some (lesser least p)) ts

unfoldable pub is_min : Option ℕ → ℕ → ℕ
is_min none p = 0
is_min (some least) p = if eqb p least then 1 else 0

-- A metric that is there and is 1.
abbrev pub is_one : Option ℕ → Bool
is_one none = false
is_one (some n) = eqb n 1

abbrev pub target_label : ProbeResult → Text
target_label r = elim (lookup (bytes "target") r.labels) [ none ↦ [] | some t ↦ t ]

abbrev pub priority_of : Option Text → Option ℕ
priority_of none = none
priority_of (some t) = parse_decimal t

module _ (lib : VecLib) where
  open lib use {Vec, reset, set, add}

  -- The gauges and counters of the runner that hold a value for each zone or server.
  pub record Gauges : Type 0 where
    pub parent_delegation : Vec
    pub ns_classification_count : Vec
    pub mx_count : Vec
    pub mx_resolved_count : Vec
    pub mx_cname_count : Vec
    pub mx_syntax_valid_count : Vec
    pub null_mx : Vec
    pub mx_has_null_mx_rr : Vec
    pub mx_is_primary : Vec
    pub dns_queries : Vec
    pub dns_duration : Vec
    pub dns_timeouts : Vec

  -- The gauges lose what they held before; the counters keep it.
  unfoldable pub reset_gauges : Gauges → Gauges
  reset_gauges g = record g {
    parent_delegation = reset g.parent_delegation;
    ns_classification_count = reset g.ns_classification_count;
    mx_count = reset g.mx_count;
    mx_resolved_count = reset g.mx_resolved_count;
    mx_cname_count = reset g.mx_cname_count;
    mx_syntax_valid_count = reset g.mx_syntax_valid_count;
    null_mx = reset g.null_mx;
    mx_has_null_mx_rr = reset g.mx_has_null_mx_rr;
    mx_is_primary = reset g.mx_is_primary;
  }

  -- The counters of the server of one result, if it names one.
  abbrev pub count_query : ProbeResult → Gauges → Gauges
  count_query r g = if is_nil r.ip then g else record g {
    dns_queries = add g.dns_queries (r.ip ∷ []) 1;
    dns_duration = add g.dns_duration (r.ip ∷ []) r.duration;
    dns_timeouts = (if r.timed_out then add g.dns_timeouts (r.ip ∷ []) 1 else g.dns_timeouts);
  }

  unfoldable pub count_queries : List ProbeResult → Gauges → Gauges
  count_queries [] g = g
  count_queries (r ∷ rs) g = count_queries rs (count_query r g)

  -- All three counts of every zone start at 0.
  unfoldable pub init_classification : List Text → Vec → Vec
  init_classification [] v = v
  init_classification (z ∷ zs) v =
      init_classification zs
        (set (set (set v (z ∷ parent_only ∷ []) 0) (z ∷ self_only ∷ []) 0) (z ∷ both ∷ []) 0)

  abbrev pub add_class : Text → Option Text → Vec → Vec
  add_class zone none v = v
  add_class zone (some class) v = add v (zone ∷ class ∷ []) 1

  unfoldable pub count_classification : List ProbeResult → Vec → Vec
  unfolding ◌==◌ lookup
  count_classification [] v = v
  count_classification (r ∷ rs) v = count_classification rs (
      if r.check == bytes "ns_classification"
      then add_class r.zone (lookup (bytes "classification") r.labels) v
      else v)

  unfoldable pub aggregate_classification : List Text → List ProbeResult → Gauges → Gauges
  unfolding init_classification count_classification
  aggregate_classification zones rs g = record g {
    ns_classification_count =
        count_classification rs (init_classification zones g.ns_classification_count);
  }

  unfoldable pub init_mx : List Text → Gauges → Gauges
  init_mx [] g = g
  init_mx (z ∷ zs) g = init_mx zs (record g {
    mx_count = set g.mx_count (z ∷ []) 0;
    mx_resolved_count = set g.mx_resolved_count (z ∷ []) 0;
    mx_cname_count = set g.mx_cname_count (z ∷ []) 0;
    mx_syntax_valid_count = set g.mx_syntax_valid_count (z ∷ []) 0;
    null_mx = set g.null_mx (z ∷ []) 0;
    mx_has_null_mx_rr = set g.mx_has_null_mx_rr (z ∷ []) 0;
  })

  -- The state of the loop over the results: the gauges, and the records in order.
  pub record MxState : Type 0 where
    pub gauges : Gauges
    pub rrs : List MxRr
    pub minima : MinPriorities

  abbrev pub inc_if : Bool → Vec → Text → Vec
  inc_if b v zone = if b then add v (zone ∷ []) 1 else v

  unfoldable pub count_validity : ProbeResult → MxState → MxState
  unfolding lookup
  count_validity r s = record s {
    gauges = record s.gauges {
      mx_resolved_count =
          inc_if (is_one (lookup (bytes "mx_resolves") r.metrics)) s.gauges.mx_resolved_count
            r.zone;
      mx_cname_count =
          inc_if (is_one (lookup (bytes "mx_is_cname") r.metrics)) s.gauges.mx_cname_count r.zone;
      mx_syntax_valid_count =
          inc_if (is_one (lookup (bytes "mx_syntax_valid") r.metrics))
            s.gauges.mx_syntax_valid_count r.zone;
    };
  }

  abbrev pub note_rr : MxRr → MxState → MxState
  note_rr rr s = record s { rrs = s.rrs ++ rr ∷ []; minima = note_priority rr s.minima }

  -- A record with no readable priority is counted, and nothing more of its result is read.
  abbrev pub with_priority : ProbeResult → Option ℕ → MxState → MxState
  with_priority r none s = s
  with_priority r (some p) s =
      count_validity r (note_rr (record { zone = r.zone; target = target_label r; priority = p }) s)

  abbrev pub count_rr : ProbeResult → MxState → MxState
  count_rr r s = record s {
    gauges = record s.gauges { mx_count = add s.gauges.mx_count (r.zone ∷ []) 1 };
  }

  abbrev pub mx_info_or : ProbeResult → Option ℕ → MxState → MxState
  mx_info_or r none s = count_validity r s
  mx_info_or r (some _) s =
      with_priority r (priority_of (lookup (bytes "priority") r.labels)) (count_rr r s)

  unfoldable pub collect_mx : List ProbeResult → MxState → MxState
  unfolding ◌==◌ lookup count_validity parse_decimal note_priority
  collect_mx [] s = s
  collect_mx (r ∷ rs) s =
      collect_mx rs
        (if r.check == bytes "mx" then mx_info_or r (lookup (bytes "mx_info") r.metrics) s else s)

  abbrev pub set_null : List MxRr → Text → Gauges → Gauges
  set_null rrs zone g = record g {
    mx_has_null_mx_rr = set g.mx_has_null_mx_rr (zone ∷ []) 1;
    null_mx = (if eqb (zone_rr_count rrs zone) 1 then set g.null_mx (zone ∷ []) 1 else g.null_mx);
  }

  -- `rrs` are all the records, the last list those that are still to come.
  unfoldable pub mark_null : List MxRr → List MxRr → Gauges → Gauges
  unfolding is_null_rr zone_rr_count
  mark_null rrs [] g = g
  mark_null rrs (r ∷ rs) g = mark_null rrs rs (if is_null_rr r then set_null rrs r.zone g else g)

  unfoldable pub set_primaries : Text → Option ℕ → List (Text × ℕ) → Vec → Vec
  unfolding is_min
  set_primaries zone least [] v = v
  set_primaries zone least ((t, p) ∷ ts) v =
      set_primaries zone least ts (set v (zone ∷ t ∷ []) (is_min least p))

  unfoldable pub mark_primary : MinPriorities → Vec → Vec
  unfolding set_primaries zone_min
  mark_primary [] v = v
  mark_primary ((zone, ts) ∷ m) v = mark_primary m (set_primaries zone (zone_min none ts) ts v)

  abbrev pub finish_mx : MxState → Gauges
  finish_mx s =
      let g = mark_null s.rrs s.rrs s.gauges in
      record g { mx_is_primary = mark_primary s.minima g.mx_is_primary }

  unfoldable pub aggregate_mx : List Text → List ProbeResult → Gauges → Gauges
  unfolding init_mx collect_mx mark_null mark_primary
  aggregate_mx zones rs g =
      finish_mx (collect_mx rs (record { gauges = init_mx zones g; rrs = []; minima = [] }))
