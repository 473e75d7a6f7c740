-- ===== src/Cycle/Registration/Total.antt =====
-- The registration of the permanent metrics does not panic.
use dnshealth_exporter.Prelude.{
  ◌≡◌, refl, ap, ◌∙◌, Bool, true, false, not, ◌&&◌, some, List, [], ◌∷◌, arith, all,
}
use dnshealth_exporter.Text.{Text, contains, ◌==◌}
use dnshealth_exporter.Text.Equality.{==_iff}
use dnshealth_exporter.Text.Maps.{is_distinct}
use dnshealth_exporter.Cycle.Registration.{
  MetricDesc, is_word, is_well_formed, PermanentLib, runner_metrics, build_info, metric_names,
  must_register, permanent_registry,
}

-- No text of the second list is in the first.
unfoldable pub is_disjoint : List Text → List Text → Bool
unfolding contains
is_disjoint old [] = true
is_disjoint old (t ∷ ts) = not (contains old t) && is_disjoint old ts

is_disjoint-cons :
    (t : Text) (old ts : List Text)
    → is_disjoint old ts ≡ true
    → contains ts t ≡ false
    → is_disjoint (t ∷ old) ts ≡ true
unfolding is_disjoint contains
is_disjoint-cons t old [] h k = refl
is_disjoint-cons t old (x ∷ ts) h k =
    ground (arith, is_disjoint-cons t old ts, ==_iff t x, ==_iff x t)

abbrev pub reverse_onto : List Text → List Text → List Text
reverse_onto [] old = old
reverse_onto (t ∷ ts) old = reverse_onto ts (t ∷ old)

module _ (lib : PermanentLib) where
  open lib use {Registry, new_registry, register, registered, registered_new, register_fresh}

  must_register-cons :
      (reg reg' : Registry) (d : MetricDesc) (ds : List MetricDesc)
      → register reg d ≡ some reg'
      → must_register lib reg (d ∷ ds) ≡ must_register lib reg' ds
  unfolding must_register
  must_register-cons reg reg' d ds h = rw (must_register, h) refl

  permanent_registry-first :
      (reg : Registry)
      → must_register lib new_registry (build_info ∷ []) ≡ some reg
      → permanent_registry lib ≡ must_register lib reg runner_metrics
  unfolding permanent_registry
  permanent_registry-first reg h = rw (permanent_registry, h) refl

  -- Well-formed metrics with new and different names are all accepted.
  must_register-total :
      (reg : Registry) (old : List Text) (ds : List MetricDesc)
      → registered reg ≡ old
      → all is_well_formed ds ≡ true
      → is_distinct (metric_names ds) ≡ true
      → is_disjoint old (metric_names ds) ≡ true
      → (reg' : Registry) × (must_register lib reg ds ≡ some reg')
        × (registered reg' ≡ reverse_onto (metric_names ds) old)
  unfolding must_register metric_names is_distinct is_disjoint
  must_register-total reg old [] e w d k = (reg, refl, e)
  must_register-total reg old (m ∷ ds) e w d k =
      let (reg1, h, n) = register_fresh reg m (ground (arith, w)) (rw e (ground (arith, k))) in
      let (reg2, h', n') =
        must_register-total reg1 (m.name ∷ old) ds (n ∙ ap (λ l. m.name ∷ l) e) (ground (arith, w))
          (ground (arith, d))
          (is_disjoint-cons m.name old (metric_names ds) (ground (arith, k)) (ground (arith, d))) in
      (reg2, must_register-cons reg reg1 m ds h ∙ h', n')

  runner_metrics-ok :
      (all is_well_formed runner_metrics ≡ true)
      × (is_distinct (metric_names runner_metrics) ≡ true)
      × (is_disjoint (build_info.name ∷ []) (metric_names runner_metrics) ≡ true)
  unfolding is_well_formed is_word metric_names is_distinct is_disjoint contains ◌==◌
  runner_metrics-ok = (refl, refl, refl)

  build_info-ok :
      (all is_well_formed (build_info ∷ []) ≡ true)
      × (is_distinct (metric_names (build_info ∷ [])) ≡ true)
      × (is_disjoint [] (metric_names (build_info ∷ [])) ≡ true)
  unfolding is_well_formed is_word metric_names is_distinct is_disjoint contains ◌==◌
  build_info-ok = (refl, refl, refl)

  -- On the way to the first cycle main registers the build information and NewRunner its sixteen
  -- metrics on a new registry, and neither MustRegister panics, if the registry accepts a
  -- collector with valid and different label names whose valid name is not registered; the names
  -- that are registered then are those of the seventeen metrics.
  pub permanent_registry-total :
      (reg : Registry) × (permanent_registry lib ≡ some reg)
      × (registered reg
          ≡ reverse_onto (metric_names runner_metrics) (metric_names (build_info ∷ [])))
  unfolding permanent_registry metric_names
  permanent_registry-total =
      let (w, d, k) = build_info-ok in
      let (w', d', k') = runner_metrics-ok in
      let (reg1, h, n) =
        must_register-total new_registry [] (build_info ∷ []) registered_new w d k in
      let (reg2, h', n') =
        must_register-total reg1 (build_info.name ∷ []) runner_metrics n w' d' k' in
      (reg2, permanent_registry-first reg1 h ∙ h', n')
