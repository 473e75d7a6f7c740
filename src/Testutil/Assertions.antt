-- ===== src/Testutil/Assertions.antt =====
-- testutil/assertions.go: the search for a metric and the verdicts of the assertions. What
-- Registry.Gather gives is an argument, none where it fails; values are natural numbers.
pub mod Series
use dnshealth_exporter.Prelude.{
  ℕ, Bool, true, false, ◌&&◌, ◌||◌, Option, none, some, List, [], ◌∷◌, eqb, ltb, if◌then◌else◌,
  is_nil, not,
}
use dnshealth_exporter.Text.{Text, insert, lookup, ◌==◌}

-- metricMatcher; a map of labels that is nil is an empty one.
pub record MetricMatcher : Type 0 where
  pub labels : List (Text × Text)
  pub has_value : Bool
  pub value : ℕ

abbrev pub MetricOption : Type 0
MetricOption = MetricMatcher → MetricMatcher

abbrev pub no_matcher : MetricMatcher
no_matcher = record { labels = []; has_value = false; value = 0 }

-- The alternating keys and values; a last key without a value is ignored.
unfoldable pub add_pairs : List Text → List (Text × Text) → List (Text × Text)
unfolding insert
add_pairs [] labels = labels
add_pairs (key ∷ []) labels = labels
add_pairs (key ∷ value ∷ pairs) labels = add_pairs pairs (insert key value labels)

abbrev pub with_labels : List Text → MetricOption
with_labels pairs m = record m { labels = add_pairs pairs m.labels }

abbrev pub with_value : ℕ → MetricOption
with_value v m = record m { has_value = true; value = v }

unfoldable pub apply_options : List MetricOption → MetricMatcher → MetricMatcher
apply_options [] m = m
apply_options (opt ∷ opts) m = apply_options opts (opt m)

-- dto.Metric and dto.MetricFamily, with what the assertions read of them.
pub record Metric : Type 0 where
  pub labels : List (Text × Text)
  pub gauge : ℕ

pub record MetricFamily : Type 0 where
  pub name : Text
  pub metrics : List Metric

-- The map of the labels of a metric: the last one of a name counts.
unfoldable pub label_map : List (Text × Text) → List (Text × Text) → List (Text × Text)
unfolding insert
label_map [] got = got
label_map ((name, value) ∷ labels) got = label_map labels (insert name value got)

-- A read of a map of strings, "" for a key that is not there.
unfoldable pub get : Text → List (Text × Text) → Text
unfolding lookup
get key got = elim (lookup key got) [ none ↦ [] | some value ↦ value ]

unfoldable pub all_wanted : List (Text × Text) → List (Text × Text) → Bool
unfolding get ◌==◌
all_wanted got [] = true
all_wanted got ((key, value) ∷ want) =
    if not (get key got == value) then false else all_wanted got want

unfoldable pub match_labels : Metric → List (Text × Text) → Bool
unfolding all_wanted label_map
match_labels m want = if is_nil want then true else all_wanted (label_map m.labels []) want

unfoldable pub find_in_family : List Metric → List (Text × Text) → Option Metric
unfolding match_labels
find_in_family [] labels = none
find_in_family (m ∷ ms) labels = if match_labels m labels then some m else find_in_family ms labels

unfoldable pub find_metric : List MetricFamily → Text → List (Text × Text) → Option Metric
unfolding find_in_family ◌==◌
find_metric [] name labels = none
find_metric (fam ∷ families) name labels =
    let others = find_metric families name labels in
    if not (fam.name == name)
    then others
    else (elim (find_in_family fam.metrics labels) [ none ↦ others | some m ↦ some m ])

-- How an assertion ends: t.Errorf lets the test go on, t.Fatalf stops it.
pub data Verdict : Type 0 where
  passed : Verdict
  errored : Verdict
  fatal : Verdict

-- An assertion on the metric that is found, where the registry can be gathered.
abbrev on_found :
    Option (List MetricFamily) → Text → List (Text × Text) → (Option Metric → Verdict) → Verdict
on_found none name labels verdict = fatal
on_found (some families) name labels verdict = verdict (find_metric families name labels)

abbrev pub check_value : MetricMatcher → Option Metric → Verdict
check_value m none = fatal
check_value m (some metric) =
    if m.has_value && not (eqb metric.gauge m.value) then errored else passed

unfoldable pub assert_gauge : Option (List MetricFamily) → Text → List MetricOption → Verdict
unfolding apply_options find_metric
assert_gauge gathered name opts =
    let m = apply_options opts no_matcher in on_found gathered name m.labels (check_value m)

abbrev pub check_exists : Option Metric → Verdict
check_exists none = fatal
check_exists (some metric) = passed

unfoldable pub assert_gauge_exists : Option (List MetricFamily) → Text → List MetricOption → Verdict
unfolding apply_options find_metric
assert_gauge_exists gathered name opts =
    on_found gathered name (apply_options opts no_matcher).labels check_exists

abbrev pub check_missing : Option Metric → Verdict
check_missing none = passed
check_missing (some metric) = fatal

unfoldable pub assert_gauge_missing :
    Option (List MetricFamily) → Text → List MetricOption → Verdict
unfolding apply_options find_metric
assert_gauge_missing gathered name opts =
    on_found gathered name (apply_options opts no_matcher).labels check_missing

abbrev pub check_range : (min max : ℕ) → Option Metric → Verdict
check_range min max none = fatal
check_range min max (some metric) =
    if ltb metric.gauge min || ltb max metric.gauge then errored else passed

unfoldable pub assert_gauge_in_range :
    Option (List MetricFamily) → Text → List MetricOption → (min max : ℕ) → Verdict
unfolding apply_options find_metric
assert_gauge_in_range gathered name opts min max =
    on_found gathered name (apply_options opts no_matcher).labels (check_range min max)
