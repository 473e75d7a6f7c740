-- ===== src/Cycle/Aggregate/Primary.antt =====
-- The gauge mx_is_primary after a cycle.
use dnshealth_exporter.Prelude.{
  ℕ, Bool, true, false, ◌&&◌, Option, none, some, List, [], ◌∷◌, ◌≡◌, inl, inr, refl, sym, ap, ap₂,
  ◌∙◌, arith, if◌then◌else◌, Bool-cases,
}
use dnshealth_exporter.Text.{Text, bytes, ◌==◌, contains, lookup}
use dnshealth_exporter.Text.Equality.{==_iff}
use dnshealth_exporter.Text.Maps.{is_distinct, map_keys, lookup-missing}
use dnshealth_exporter.Probe.{ProbeResult}
use dnshealth_exporter.Cycle.Gauges.{VecLib, same_labels}
use dnshealth_exporter.Cycle.Aggregate.{
  Gauges, MxRr, MxState, MinPriorities, or_no_targets, targets_of, zone_min, is_min, set_primaries,
  mark_primary, mx_info_or, priority_of, count_validity, collect_mx, init_mx, is_null_rr, set_null,
  mark_null, aggregate_mx,
}
use dnshealth_exporter.Cycle.Aggregate.Mx.{rr_with, rr_of, rrs_of}
use dnshealth_exporter.Cycle.Aggregate.Priorities.{
  omin-none, least, of_zone, of_target, note_all, note_all-zone_min, note_all-lookup,
  note_all-append, AllDistinct, note_all-distinct,
}

-- The gauge of a target: what it was, if no record is of the target.
abbrev pub primary : Option ℕ → (zone_least target_least : Option ℕ) → Option ℕ
primary old zone_least none = old
primary old zone_least (some p) = some (is_min zone_least p)

-- A write to one target, in front of those to the others.
one_write :
    (b k : Bool) (old l o : Option ℕ) (p : ℕ)
    → (k ≡ true → o ≡ none)
    → (if b
        then primary (if b && (k && true) then some (is_min l p) else old) l o
        else (if b && (k && true) then some (is_min l p) else old))
      ≡ (if b then primary old l (if k then some p else o) else old)
one_write false k old l o p f = refl
one_write true false old l o p f = refl
one_write true true old l o p f = ap (primary (some (is_min l p)) l) (f refl)

module _ (lib : VecLib) where
  open lib use {Vec, set, value}

  set_primaries-value :
      (z zone target : Text) (l : Option ℕ) (ts : List (Text × ℕ)) (v : Vec)
      → is_distinct (map_keys ts) ≡ true
      → value (set_primaries lib z l ts v) (zone ∷ target ∷ []) ≡ (
          if z == zone
          then primary (value v (zone ∷ target ∷ [])) l (lookup target ts)
          else value v (zone ∷ target ∷ []))
  unfolding set_primaries lookup is_distinct map_keys same_labels
  set_primaries-value z zone target l [] v h = ground arith
  set_primaries-value z zone target l ((t, p) ∷ ts) v h =
      let v' = set v (z ∷ t ∷ []) (is_min l p) in
      let rest = set_primaries-value z zone target l ts v' (ground (arith, h)) in
      let written = lib.value_set v (z ∷ t ∷ []) (zone ∷ target ∷ []) (is_min l p) in
      let missing : (t == target) ≡ true → lookup target ts ≡ none = λ e.
        lookup-missing target ts
          (ap (contains (map_keys ts)) (sym ((==_iff t target).0 e)) ∙ ground (arith, h)) in
      rest
      ∙ ap
          (λ (o : Option ℕ).
            if◌then◌else◌ {A = Option ℕ} (z == zone) (primary o l (lookup target ts)) o)
          written
      ∙ one_write (z == zone) (t == target) (value v (zone ∷ target ∷ [])) l (lookup target ts) p
          missing

  mark_primary-value :
      (m : MinPriorities) (v : Vec) (zone target : Text)
      → is_distinct (map_keys m) ≡ true
      → AllDistinct m
      → value (mark_primary lib m v) (zone ∷ target ∷ [])
        ≡ primary
            (value v (zone ∷ target ∷ []))
            (zone_min none (targets_of zone m))
            (lookup target (targets_of zone m))
  unfolding mark_primary AllDistinct lookup is_distinct map_keys
  mark_primary-value [] v zone target h k = refl
  mark_primary-value ((z, ts) ∷ m) v zone target h (d, ds) =
      let v' = set_primaries lib z (zone_min none ts) ts v in
      let rest = mark_primary-value m v' zone target (ground (arith, h)) ds in
      let one = set_primaries-value z zone target (zone_min none ts) ts v d in
      let missing : (z == zone) ≡ true → lookup zone m ≡ none = λ e.
        lookup-missing zone m
          (ap (contains (map_keys m)) (sym ((==_iff z zone).0 e)) ∙ ground (arith, h)) in
      elim (Bool-cases (z == zone)) [
        | inl e ↦ rw e (
            rest
            ∙ ap
                (λ (o : Option (List (Text × ℕ))).
                  primary (value v' (zone ∷ target ∷ [])) (zone_min none (or_no_targets o))
                    (lookup target (or_no_targets o)))
                (missing e)
            ∙ rw e at one)
        | inr e ↦ rw e (
            rest
            ∙ ap
                (λ (o : Option ℕ).
                  primary o (zone_min none (targets_of zone m)) (lookup target (targets_of zone m)))
                (rw e at one))
      ]

  -- What a state makes of more records.
  abbrev Notes : List MxRr → MxState lib → MxState lib → Type 0
  Notes more s t =
      (t.minima ≡ note_all more s.minima) × (t.gauges.mx_is_primary ≡ s.gauges.mx_is_primary)

  info-minima :
      (r : ProbeResult) (i p : Option ℕ) (s : MxState lib)
      → priority_of (lookup (bytes "priority") r.labels) ≡ p
      → Notes (rr_with r i p) s (mx_info_or lib r i s)
  unfolding count_validity note_all
  info-minima r none p s e = (refl, refl)
  info-minima r (some i) none s e = rw e (refl, refl)
  info-minima r (some i) (some p) s e = rw e (refl, refl)

  if-minima :
      (b : Bool) (r : ProbeResult) (s : MxState lib)
      → Notes
          (if b
            then rr_with r
                (lookup (bytes "mx_info") r.metrics)
                (priority_of (lookup (bytes "priority") r.labels))
            else [])
          s
          (if b then mx_info_or lib r (lookup (bytes "mx_info") r.metrics) s else s)
  unfolding note_all
  if-minima true r s = info-minima r (lookup (bytes "mx_info") r.metrics) _ s refl
  if-minima false r s = (refl, refl)

  collect_mx-minima :
      (rs : List ProbeResult) (s : MxState lib) → Notes (rrs_of rs) s (collect_mx lib rs s)
  unfolding collect_mx rrs_of note_all
  collect_mx-minima [] s = (refl, refl)
  collect_mx-minima (r ∷ rs) s =
      let t =
        if r.check == bytes "mx"
        then mx_info_or lib r (lookup (bytes "mx_info") r.metrics) s
        else s in
      let (a, b) = if-minima (r.check == bytes "mx") r s in
      let (a', b') = collect_mx-minima rs t in
      (
        a' ∙ ap (note_all (rrs_of rs)) a ∙ sym (note_all-append (rr_of r) (rrs_of rs) s.minima),
        b' ∙ b,
      )

  init_mx-keeps_primary :
      (zones : List Text) (g : Gauges lib) → (init_mx lib zones g).mx_is_primary ≡ g.mx_is_primary
  unfolding init_mx
  init_mx-keeps_primary [] g = refl
  init_mx-keeps_primary (z ∷ zs) g = init_mx-keeps_primary zs _

  if_null-keeps_primary :
      (b : Bool) (rrs : List MxRr) (zone : Text) (g : Gauges lib)
      → (if b then set_null lib rrs zone g else g).mx_is_primary ≡ g.mx_is_primary
  if_null-keeps_primary true rrs zone g = refl
  if_null-keeps_primary false rrs zone g = refl

  mark_null-keeps_primary :
      (rrs rs : List MxRr) (g : Gauges lib)
      → (mark_null lib rrs rs g).mx_is_primary ≡ g.mx_is_primary
  unfolding mark_null
  mark_null-keeps_primary rrs [] g = refl
  mark_null-keeps_primary rrs (r ∷ rs) g =
      mark_null-keeps_primary rrs rs (if is_null_rr r then set_null lib rrs r.zone g else g)
      ∙ if_null-keeps_primary (is_null_rr r) rrs r.zone g

  -- After the aggregation mx_is_primary of a zone and a target is 1 if the least priority of the MX
  -- records of the target in the zone is the least of all MX records of the zone, 0 if it is not, and
  -- what it was before if the zone has no MX record of the target.
  pub aggregate_mx-primary :
      (zones : List Text) (rs : List ProbeResult) (g : Gauges lib) (zone target : Text)
      → value (aggregate_mx lib zones rs g).mx_is_primary (zone ∷ target ∷ [])
        ≡ primary
            (value g.mx_is_primary (zone ∷ target ∷ []))
            (least (of_zone zone) (rrs_of rs))
            (least (of_target zone target) (rrs_of rs))
  unfolding aggregate_mx note_all AllDistinct is_distinct map_keys lookup zone_min
  aggregate_mx-primary zones rs g zone target =
      let s0 : MxState lib = record { gauges = init_mx lib zones g; rrs = []; minima = [] } in
      let s = collect_mx lib rs s0 in
      let m = note_all (rrs_of rs) [] in
      let (a, b) = collect_mx-minima rs s0 in
      let v = (mark_null lib s.rrs s.rrs s.gauges).mx_is_primary in
      let same : v ≡ g.mx_is_primary =
        mark_null-keeps_primary s.rrs s.rrs s.gauges ∙ b ∙ init_mx-keeps_primary zones g in
      let (d, ds) = note_all-distinct (rrs_of rs) [] refl tt in
      ap₂ (λ (n : MinPriorities) (w : Vec). value (mark_primary lib n w) (zone ∷ target ∷ [])) a
        same
      ∙ mark_primary-value m g.mx_is_primary zone target d ds
      ∙ ap₂ (primary (value g.mx_is_primary (zone ∷ target ∷ [])))
          (note_all-zone_min (rrs_of rs) [] zone ∙ omin-none _)
          (note_all-lookup (rrs_of rs) [] zone target ∙ omin-none _)
