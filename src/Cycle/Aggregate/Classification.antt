-- ===== src/Cycle/Aggregate/Classification.antt =====
-- The gauge ns_classification_count after a cycle.
use dnshealth_exporter.Prelude.{
  ℕ, ◌+◌, Bool, true, false, ◌&&◌, Option, none, some, List, [], ◌∷◌, ◌≡◌, ◌⊎◌, inl, inr, ap, ◌∙◌,
  arith, if◌then◌else◌, count, Bool-cases,
}
use dnshealth_exporter.Text.{Text, bytes, ◌==◌, contains, lookup}
use dnshealth_exporter.Text.Equality.{==_iff}
use dnshealth_exporter.Probe.{ProbeResult}
use dnshealth_exporter.Probe.NsClassification.{self_only, parent_only, both}
use dnshealth_exporter.Cycle.Gauges.Laws.{value-set_self, value-set_same}
use dnshealth_exporter.Cycle.Gauges.{VecLib, same_labels}
use dnshealth_exporter.Cycle.Aggregate.{
  Gauges, init_classification, add_class, count_classification, aggregate_classification,
}

-- A label that has a value.
unfoldable pub is_label : Option Text → Text → Bool
unfolding ◌==◌
is_label none class = false
is_label (some c) class = c == class

-- A result of the classification prober that puts a host of the zone into a class.
unfoldable pub classifies : Text → Text → ProbeResult → Bool
unfolding ◌==◌ is_label lookup
classifies zone class r =
    r.check == bytes "ns_classification"
    && (r.zone == zone && is_label (lookup (bytes "classification") r.labels) class)

-- The classes that the prober gives.
abbrev pub IsClass : Text → Type 0
IsClass class = (class ≡ parent_only) ⊎ (class ≡ self_only) ⊎ (class ≡ both)

module _ (lib : VecLib) where
  open lib use {Vec, set, add, value}

  add_class-value :
      (z zone class : Text) (label : Option Text) (v : Vec) (n : ℕ)
      → value v (zone ∷ class ∷ []) ≡ some n
      → value (add_class lib z label v) (zone ∷ class ∷ [])
        ≡ some (n + (if z == zone && is_label label class then 1 else 0))
  unfolding same_labels is_label
  add_class-value z zone class none v n h = ground (arith, h)
  add_class-value z zone class (some c) v n h =
      ground (
        arith,
        h,
        ==_iff z zone,
        ==_iff c class,
        lib.value_add v (z ∷ c ∷ []) (zone ∷ class ∷ []) 1,
      )

  count_classification-value :
      (zone class : Text) (rs : List ProbeResult) (v : Vec) (n : ℕ)
      → value v (zone ∷ class ∷ []) ≡ some n
      → value (count_classification lib rs v) (zone ∷ class ∷ [])
        ≡ some (n + count (classifies zone class) rs)
  unfolding count_classification classifies
  count_classification-value zone class [] v n h = ground arith
  count_classification-value zone class (r ∷ rs) v n h =
      let label = lookup (bytes "classification") r.labels in
      elim (Bool-cases (r.check == bytes "ns_classification")) [
        | inl e ↦ rw e (
            count_classification-value zone class rs (add_class lib r.zone label v) _
              (add_class-value r.zone zone class label v n h)
            ∙ ap some (omega arith))
        | inr e ↦ rw e (count_classification-value zone class rs v n h ∙ ap some (omega arith))
      ]

  -- A series that is there keeps the value 0 while the others start at 0.
  init_classification-keeps :
      (zones : List Text) (v : Vec) (l : List Text)
      → value v l ≡ some 0
      → value (init_classification lib zones v) l ≡ some 0
  unfolding init_classification
  init_classification-keeps [] v l h = h
  init_classification-keeps (z ∷ zs) v l h =
      init_classification-keeps zs _ l
        (keep _ (z ∷ both ∷ []) (keep _ (z ∷ self_only ∷ []) (keep v (z ∷ parent_only ∷ []) h)))
    where
      keep : (w : Vec) (k : List Text) → value w l ≡ some 0 → value (set w k 0) l ≡ some 0
      keep w k e = value-set_same lib w k l 0 e

  init_zone-value :
      (v : Vec) (zone class : Text)
      → IsClass class
      → value
          (set
            (set (set v (zone ∷ parent_only ∷ []) 0) (zone ∷ self_only ∷ []) 0)
            (zone ∷ both ∷ [])
            0)
          (zone ∷ class ∷ [])
        ≡ some 0
  init_zone-value v zone class (inl e) = rw e (
      value-set_same lib _ (zone ∷ both ∷ []) _ 0
        (value-set_same lib _ (zone ∷ self_only ∷ []) _ 0 (value-set_self lib v _ 0)))
  init_zone-value v zone class (inr (inl e)) =
      rw e (value-set_same lib _ (zone ∷ both ∷ []) _ 0 (value-set_self lib _ _ 0))
  init_zone-value v zone class (inr (inr e)) = rw e (value-set_self lib _ _ 0)

  init_classification-value :
      (zones : List Text) (v : Vec) (zone class : Text)
      → contains zones zone ≡ true
      → IsClass class
      → value (init_classification lib zones v) (zone ∷ class ∷ []) ≡ some 0
  unfolding init_classification contains
  init_classification-value [] v zone class h k = cc
  init_classification-value (z ∷ zs) v zone class h k = elim (Bool-cases (z == zone)) [
    | inl e ↦
        init_classification-keeps zs _ (zone ∷ class ∷ [])
          (rw ((==_iff z zone).0 e) (init_zone-value v zone class k))
    | inr e ↦ init_classification-value zs _ zone class (rw e at h) k
  ]

  -- For a configured zone the count of each of the three classes is there after the aggregation, and
  -- it is the number of the results of the classification prober that are of the zone and carry the
  -- class as their label.
  pub aggregate_classification-value :
      (zones : List Text) (rs : List ProbeResult) (g : Gauges lib) (zone class : Text)
      → contains zones zone ≡ true
      → IsClass class
      → value (aggregate_classification lib zones rs g).ns_classification_count (zone ∷ class ∷ [])
        ≡ some (count (classifies zone class) rs)
  unfolding aggregate_classification
  aggregate_classification-value zones rs g zone class h k =
      count_classification-value zone class rs _ 0
        (init_classification-value zones g.ns_classification_count zone class h k)
      ∙ ap some (omega arith)
