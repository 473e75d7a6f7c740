-- ===== src/Cycle/Aggregate/Mx.antt =====
-- The gauges on the Null MX records of RFC 7505 after a cycle.
use dnshealth_exporter.Prelude.{
  ℕ, Bool, true, false, ◌&&◌, Option, none, some, List, [], ◌∷◌, ◌++◌, ◌≡◌, inl, inr, refl, sym, ap,
  ◌∙◌, arith, if◌then◌else◌, any, eqb, Bool-cases, append-nil, append_assoc,
}
use dnshealth_exporter.Text.{Text, bytes, ◌==◌, contains, lookup}
use dnshealth_exporter.Text.Equality.{==_iff}
use dnshealth_exporter.Probe.{ProbeResult}
use dnshealth_exporter.Cycle.Gauges.Laws.{value-set_self, value-set_same}
use dnshealth_exporter.Cycle.Gauges.{VecLib, same_labels}
use dnshealth_exporter.Cycle.Aggregate.{
  Gauges, MxRr, MxState, is_null_rr, zone_rr_count, priority_of, target_label, mx_info_or,
  count_validity, collect_mx, set_null, mark_null, init_mx, aggregate_mx,
}

-- The MX record that a result stands for, if it carries mx_info and a readable priority.
abbrev pub rr_with : ProbeResult → Option ℕ → Option ℕ → List MxRr
rr_with r none p = []
rr_with r (some _) none = []
rr_with r (some _) (some p) = record { zone = r.zone; target = target_label r; priority = p } ∷ []

abbrev pub rr_of : ProbeResult → List MxRr
rr_of r =
    if r.check == bytes "mx"
    then rr_with r (lookup (bytes "mx_info") r.metrics)
        (priority_of (lookup (bytes "priority") r.labels))
    else []

unfoldable pub rrs_of : List ProbeResult → List MxRr
unfolding ◌==◌ lookup
rrs_of [] = []
rrs_of (r ∷ rs) = rr_of r ++ rrs_of rs

-- A Null MX record of the zone.
unfoldable pub null_in : Text → MxRr → Bool
unfolding is_null_rr ◌==◌
null_in zone r = is_null_rr r && r.zone == zone

flag :
    (b : Bool) (o : Option ℕ) → o ≡ some 0 → (if b then some 1 else o) ≡ some (if b then 1 else 0)
flag true o h = refl
flag false o h = h

module _ (lib : VecLib) where
  open lib use {Vec, set, add, value}

  info-rrs :
      (r : ProbeResult) (i p : Option ℕ) (s : MxState lib)
      → priority_of (lookup (bytes "priority") r.labels) ≡ p
      → ((mx_info_or lib r i s).rrs ≡ s.rrs ++ rr_with r i p)
        × ((mx_info_or lib r i s).gauges.null_mx ≡ s.gauges.null_mx)
        × ((mx_info_or lib r i s).gauges.mx_has_null_mx_rr ≡ s.gauges.mx_has_null_mx_rr)
  unfolding count_validity
  info-rrs r none p s e = (sym (append-nil s.rrs), refl, refl)
  info-rrs r (some i) none s e = rw e (sym (append-nil s.rrs), refl, refl)
  info-rrs r (some i) (some p) s e = rw e (refl, refl, refl)

  -- What is known of a state that has taken more records.
  abbrev Adds : List MxRr → MxState lib → MxState lib → Type 0
  Adds more s t =
      (t.rrs ≡ s.rrs ++ more)
      × (t.gauges.null_mx ≡ s.gauges.null_mx)
      × (t.gauges.mx_has_null_mx_rr ≡ s.gauges.mx_has_null_mx_rr)

  if-rrs :
      (b : Bool) (r : ProbeResult) (s : MxState lib)
      → Adds
          (if b
            then rr_with r
                (lookup (bytes "mx_info") r.metrics)
                (priority_of (lookup (bytes "priority") r.labels))
            else [])
          s
          (if b then mx_info_or lib r (lookup (bytes "mx_info") r.metrics) s else s)
  if-rrs true r s = info-rrs r (lookup (bytes "mx_info") r.metrics) _ s refl
  if-rrs false r s = (sym (append-nil s.rrs), refl, refl)

  collect_mx-rrs :
      (rs : List ProbeResult) (s : MxState lib) → Adds (rrs_of rs) s (collect_mx lib rs s)
  unfolding collect_mx rrs_of
  collect_mx-rrs [] s = (sym (append-nil s.rrs), refl, refl)
  collect_mx-rrs (r ∷ rs) s =
      let (a, b, c) = if-rrs (r.check == bytes "mx") r s in
      let (a', b', c') = collect_mx-rrs rs (
        if r.check == bytes "mx"
        then mx_info_or lib r (lookup (bytes "mx_info") r.metrics) s
        else s) in
      (a' ∙ ap (λ l. l ++ rrs_of rs) a ∙ append_assoc s.rrs _ (rrs_of rs), b' ∙ b, c' ∙ c)

  -- What one record of the loop leaves of the two gauges of a zone.
  step-value :
      (b : Bool) (rrs : List MxRr) (r : MxRr) (g : Gauges lib) (zone : Text)
      → (value (if b then set_null lib rrs r.zone g else g).mx_has_null_mx_rr (zone ∷ [])
          ≡ (if b && r.zone == zone then some 1 else value g.mx_has_null_mx_rr (zone ∷ [])))
        × (value (if b then set_null lib rrs r.zone g else g).null_mx (zone ∷ []) ≡ (
            if b && r.zone == zone && eqb (zone_rr_count rrs zone) 1
            then some 1
            else value g.null_mx (zone ∷ [])))
  unfolding same_labels
  step-value false rrs r g zone = (refl, refl)
  step-value true rrs r g zone = (
    ground (arith, lib.value_set g.mx_has_null_mx_rr (r.zone ∷ []) (zone ∷ []) 1),
    elim (Bool-cases (r.zone == zone)) [
      | inl e ↦
          let same = (==_iff r.zone zone).0 e in
          rw e (
            ground (
              arith,
              e,
              ap (zone_rr_count rrs) same,
              lib.value_set g.null_mx (r.zone ∷ []) (zone ∷ []) 1,
            ))
      | inr e ↦ rw e (ground (arith, e, lib.value_set g.null_mx (r.zone ∷ []) (zone ∷ []) 1))
    ],
  )

  mark_null-value :
      (rrs rs : List MxRr) (g : Gauges lib) (zone : Text)
      → (value (mark_null lib rrs rs g).mx_has_null_mx_rr (zone ∷ [])
          ≡ (if any (null_in zone) rs then some 1 else value g.mx_has_null_mx_rr (zone ∷ [])))
        × (value (mark_null lib rrs rs g).null_mx (zone ∷ []) ≡ (
            if any (null_in zone) rs && eqb (zone_rr_count rrs zone) 1
            then some 1
            else value g.null_mx (zone ∷ [])))
  unfolding mark_null null_in
  mark_null-value rrs [] g zone = (refl, refl)
  mark_null-value rrs (r ∷ rs) g zone =
      let (a, b) = step-value (is_null_rr r) rrs r g zone in
      let (a', b') =
        mark_null-value rrs rs (if is_null_rr r then set_null lib rrs r.zone g else g) zone in
      (ground (arith, a, a'), ground (arith, b, b'))

  -- Both gauges of a configured zone start at 0.
  Starts : Text → Gauges lib → Type 0
  Starts zone g =
      (value g.mx_has_null_mx_rr (zone ∷ []) ≡ some 0) × (value g.null_mx (zone ∷ []) ≡ some 0)

  init_mx-keeps :
      (zones : List Text) (g : Gauges lib) (zone : Text)
      → Starts zone g
      → Starts zone (init_mx lib zones g)
  unfolding init_mx Starts
  init_mx-keeps [] g zone h = h
  init_mx-keeps (z ∷ zs) g zone (a, b) =
      init_mx-keeps zs _ zone
        (value-set_same lib _ (z ∷ []) _ 0 a, value-set_same lib _ (z ∷ []) _ 0 b)

  init_mx-value :
      (zones : List Text) (g : Gauges lib) (zone : Text)
      → contains zones zone ≡ true
      → Starts zone (init_mx lib zones g)
  unfolding init_mx contains Starts
  init_mx-value [] g zone h = cc
  init_mx-value (z ∷ zs) g zone h = elim (Bool-cases (z == zone)) [
    | inl e ↦
        let same = (==_iff z zone).0 e in
        init_mx-keeps zs _ zone
          (rw same (value-set_self lib _ _ 0), rw same (value-set_self lib _ _ 0))
    | inr e ↦ init_mx-value zs _ zone (rw e at h)
  ]

  -- For a configured zone, mx_has_null_mx_rr is 1 after the aggregation if an MX record of the zone
  -- is "0 ." and 0 otherwise, and null_mx is 1 if in addition that record is the only one of the
  -- zone and 0 otherwise.
  pub aggregate_mx-null :
      (zones : List Text) (rs : List ProbeResult) (g : Gauges lib) (zone : Text)
      → contains zones zone ≡ true
      → (value (aggregate_mx lib zones rs g).mx_has_null_mx_rr (zone ∷ [])
          ≡ some (if any (null_in zone) (rrs_of rs) then 1 else 0))
        × (value (aggregate_mx lib zones rs g).null_mx (zone ∷ [])
            ≡ some (
                if any (null_in zone) (rrs_of rs) && eqb (zone_rr_count (rrs_of rs) zone) 1
                then 1
                else 0))
  unfolding aggregate_mx Starts
  aggregate_mx-null zones rs g zone h =
      let s0 : MxState lib = record { gauges = init_mx lib zones g; rrs = []; minima = [] } in
      let s = collect_mx lib rs s0 in
      let (a, b, c) = collect_mx-rrs rs s0 in
      let (i, j) = init_mx-value zones g zone h in
      let (m, n) = mark_null-value s.rrs s.rrs s.gauges zone in
      (
        m
            ∙ flag _ _ (ap (λ v. value v (zone ∷ [])) c ∙ i)
            ∙ ap (λ l. some (if any (null_in zone) l then 1 else 0)) a,
        n
            ∙ flag _ _ (ap (λ v. value v (zone ∷ [])) b ∙ j)
            ∙ ap (λ l. some (if any (null_in zone) l && eqb (zone_rr_count l zone) 1 then 1 else 0))
                a,
      )
