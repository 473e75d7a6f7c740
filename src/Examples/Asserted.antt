-- ===== src/Examples/Asserted.antt =====
-- The assertions on two series of one name.
use dnshealth_exporter.Prelude.{
  ℕ, not, ◌&&◌, ◌||◌, some, List, [], ◌∷◌, ◌≡◌, refl, eqb, ltb, if◌then◌else◌,
}
use dnshealth_exporter.Text.{Text, bytes, insert}
use dnshealth_exporter.Testutil.Assertions.{
  Metric, MetricFamily, MetricOption, apply_options, no_matcher, with_labels, with_value, add_pairs,
  assert_gauge, assert_gauge_exists, assert_gauge_missing, assert_gauge_in_range, passed, errored,
  fatal, find_metric,
}
use dnshealth_exporter.Testutil.Assertions.Series.{series, judged, assert_gauge-judged}

abbrev serial_of : Text → ℕ → Metric
serial_of server n = record {
  labels = (bytes "zone", bytes "a.") ∷ (bytes "nameserver", server) ∷ [];
  gauge = n;
}

abbrev gathered : List MetricFamily
gathered =
    record {
      name = bytes "serial";
      metrics = serial_of (bytes "ns1.") 7 ∷ serial_of (bytes "ns2.") 8 ∷ [];
    }
    ∷ []

abbrev eight : List MetricOption
eight = with_labels (bytes "zone" ∷ bytes "a." ∷ []) ∷ with_value 8 ∷ []

-- The second series has the value that is asked for, and the first one fails the assertion.
ambiguous : assert_gauge (some gathered) (bytes "serial") eight ≡ errored
unfolding assert_gauge apply_options find_metric add_pairs insert
ambiguous = refl

-- A label that no series has is asked for with an empty value.
absent_label :
    assert_gauge_exists
      (some gathered)
      (bytes "serial")
      (with_labels (bytes "source" ∷ [] ∷ []) ∷ [])
    ≡ passed
unfolding assert_gauge_exists apply_options find_metric add_pairs insert
absent_label = refl

assert_gauge-judged_example :
    let m = apply_options eight no_matcher in
    let found = series gathered (bytes "serial") m.labels in
    (assert_gauge (some gathered) (bytes "serial") eight
      ≡ judged found fatal (λ v. if m.has_value && not (eqb v m.value) then errored else passed))
    × (assert_gauge_in_range (some gathered) (bytes "serial") eight 1 9
        ≡ judged found fatal (λ v. if ltb v 1 || ltb 9 v then errored else passed))
    × (assert_gauge_exists (some gathered) (bytes "serial") eight
        ≡ judged found fatal (λ v. passed))
    × (assert_gauge_missing (some gathered) (bytes "serial") eight
        ≡ judged found passed (λ v. fatal))
assert_gauge-judged_example = assert_gauge-judged gathered (bytes "serial") eight 1 9
