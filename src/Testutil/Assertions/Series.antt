-- ===== src/Testutil/Assertions/Series.antt =====
-- The series that an assertion speaks of.
use dnshealth_exporter.Prelude.{
  ℕ, ◌&&◌, ◌||◌, Option, none, some, List, [], ◌∷◌, ◌++◌, ◌≡◌, refl, ap, sym, ◌∙◌, filter, eqb, ltb,
  if◌then◌else◌, not, Bool-cases, inl, inr, arith,
}
use dnshealth_exporter.Text.{Text, ◌==◌}
use dnshealth_exporter.Testutil.Assertions.{
  Metric, MetricFamily, MetricOption, apply_options, no_matcher, check_value, check_range,
  check_exists, check_missing, match_labels, find_in_family, find_metric, passed, errored, fatal,
  assert_gauge, assert_gauge_exists, assert_gauge_missing, assert_gauge_in_range, Verdict,
}

-- The series of a name whose labels match, in the order in which they are gathered.
unfoldable pub series : List MetricFamily → Text → List (Text × Text) → List Metric
unfolding match_labels ◌==◌
series [] name labels = []
series (fam ∷ families) name labels =
    let others = series families name labels in
    if fam.name == name then filter (λ m. match_labels m labels) fam.metrics ++ others else others

abbrev pub first : List Metric → Option Metric
first [] = none
first (m ∷ ms) = some m

find_in_family-first :
    (ms : List Metric) (labels : List (Text × Text))
    → find_in_family ms labels ≡ first (filter (λ m. match_labels m labels) ms)
unfolding find_in_family
find_in_family-first [] labels = refl
find_in_family-first (m ∷ ms) labels = ground (arith, find_in_family-first ms labels)

first-append :
    (xs ys : List Metric)
    → first (xs ++ ys) ≡ (elim (first xs) [ none ↦ first ys | some m ↦ some m ])
first-append [] ys = refl
first-append (x ∷ xs) ys = refl

find_metric-first :
    (families : List MetricFamily) (name : Text) (labels : List (Text × Text))
    → find_metric families name labels ≡ first (series families name labels)
unfolding find_metric series
find_metric-first [] name labels = refl
find_metric-first (fam ∷ families) name labels = elim (Bool-cases (fam.name == name)) [
  | inl e ↦
      let found = filter (λ m. match_labels m labels) fam.metrics in
      rw (e, find_in_family-first fam.metrics labels)
        (ap (λ x. (elim (first found) [ none ↦ x | some m ↦ some m ]))
            (find_metric-first families name labels)
          ∙ sym (first-append found (series families name labels)))
  | inr e ↦ rw e (find_metric-first families name labels)
]

-- The verdict on the first series, and the one where there is none.
abbrev pub judged : List Metric → Verdict → (ℕ → Verdict) → Verdict
judged [] missing verdict = missing
judged (m ∷ ms) missing verdict = verdict m.gauge

judged-first :
    (check : Option Metric → Verdict) (verdict : ℕ → Verdict)
    → ((m : Metric) → check (some m) ≡ verdict m.gauge)
    → (ms : List Metric) → check (first ms) ≡ judged ms (check none) verdict
judged-first check verdict h [] = refl
judged-first check verdict h (m ∷ ms) = h m

-- The assertions end by the first series of the name whose labels match alone, whatever the options
-- are: AssertGauge on its value where one is asked for, AssertGaugeInRange by the bounds, and
-- AssertGaugeExists and AssertGaugeMissing by whether there is one, so that one of these two passes
-- exactly where the other is fatal.
pub assert_gauge-judged :
    (families : List MetricFamily) (name : Text) (opts : List MetricOption) (min max : ℕ)
    → let m = apply_options opts no_matcher in
      let found = series families name m.labels in
      (assert_gauge (some families) name opts
        ≡ judged found fatal (λ v. if m.has_value && not (eqb v m.value) then errored else passed))
      × (assert_gauge_in_range (some families) name opts min max
          ≡ judged found fatal (λ v. if ltb v min || ltb max v then errored else passed))
      × (assert_gauge_exists (some families) name opts ≡ judged found fatal (λ v. passed))
      × (assert_gauge_missing (some families) name opts ≡ judged found passed (λ v. fatal))
unfolding assert_gauge assert_gauge_in_range assert_gauge_exists assert_gauge_missing
assert_gauge-judged families name opts min max =
    let m = apply_options opts no_matcher in
    let found = series families name m.labels in
    rw (find_metric-first families name m.labels) (
      judged-first (check_value m) _ (λ x. refl) found,
      judged-first (check_range min max) _ (λ x. refl) found,
      judged-first check_exists _ (λ x. refl) found,
      judged-first check_missing _ (λ x. refl) found,
    )
