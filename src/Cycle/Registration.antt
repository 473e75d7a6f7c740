-- ===== src/Cycle/Registration.antt =====
-- cycle/runner.go: the metrics that NewRunner registers, and main.go: the permanent registry that
-- it registers them on. Help texts are not modelled.
pub mod Total
use dnshealth_exporter.Prelude.{
  ℕ, ◌≡◌, Bool, true, false, ◌&&◌, ◌||◌, Option, none, some, List, [], ◌∷◌, leb, eqb, all, not,
}
use dnshealth_exporter.Text.{Text, bytes, contains}
use dnshealth_exporter.Text.Maps.{is_distinct}

pub data MetricKind : Type 0 where
  gauge counter gauge_vec counter_vec : MetricKind

-- A collector with its one descriptor; the labels are the constant and the variable ones.
pub record MetricDesc : Type 0 where
  pub kind : MetricKind
  pub name : Text
  pub label_names : List Text

-- The letters, the underscore, and where `digits` holds the digits.
abbrev pub is_word_byte : Bool → ℕ → Bool
is_word_byte digits c =
    (leb 97 c && leb c 122)
    || (leb 65 c && leb c 90)
    || eqb c b'_'
    || (digits && leb 48 c && leb c 57)

-- The names of the Prometheus data model that have no colon.
unfoldable pub is_word : Text → Bool
is_word [] = false
is_word (c ∷ cs) = is_word_byte false c && all (is_word_byte true) cs

unfoldable pub is_well_formed : MetricDesc → Bool
unfolding is_word is_distinct
is_well_formed d = is_word d.name && all is_word d.label_names && is_distinct d.label_names

-- prometheus.Registry, whose Register gives none for an error. It documents that it accepts a
-- collector with a valid descriptor whose name no other collector has.
pub record PermanentLib : Type 1 where
  pub Registry : Type 0
  pub new_registry : Registry
  pub register : Registry → MetricDesc → Option Registry
  pub registered : Registry → List Text
  pub registered_new : registered new_registry ≡ []
  pub register_fresh :
      (reg : Registry) (d : MetricDesc)
      → is_well_formed d ≡ true
      → contains (registered reg) d.name ≡ false
      → (reg' : Registry) × (register reg d ≡ some reg')
        × (registered reg' ≡ d.name ∷ registered reg)

abbrev pub server_label : List Text
server_label = bytes "server" ∷ []

abbrev pub zone_label : List Text
zone_label = bytes "zone" ∷ []

abbrev metric : MetricKind → Text → List Text → MetricDesc
metric kind name label_names = record { kind = kind; name = name; label_names = label_names }

-- In the order of the arguments of MustRegister.
abbrev pub runner_metrics : List MetricDesc
runner_metrics =
    metric gauge (bytes "dnshealth_probe_cycle_duration_seconds") []
    ∷ metric gauge (bytes "dnshealth_probe_zones_total") []
    ∷ metric counter_vec (bytes "dnshealth_dns_queries_total") server_label
    ∷ metric counter_vec (bytes "dnshealth_dns_query_duration_seconds_total") server_label
    ∷ metric counter_vec (bytes "dnshealth_dns_timeouts_total") server_label
    ∷ metric counter (bytes "dnshealth_delegation_cache_hits_total") []
    ∷ metric counter (bytes "dnshealth_delegation_cache_misses_total") []
    ∷ metric gauge_vec (bytes "dnshealth_parent_delegation") zone_label
    ∷ metric gauge_vec (bytes "dnshealth_ns_classification_count")
        (bytes "zone" ∷ bytes "classification" ∷ [])
    ∷ metric gauge_vec (bytes "dnshealth_mx_count") zone_label
    ∷ metric gauge_vec (bytes "dnshealth_mx_resolved_count") zone_label
    ∷ metric gauge_vec (bytes "dnshealth_mx_cname_count") zone_label
    ∷ metric gauge_vec (bytes "dnshealth_mx_syntax_valid_count") zone_label
    ∷ metric gauge_vec (bytes "dnshealth_mx_null_mx") zone_label
    ∷ metric gauge_vec (bytes "dnshealth_mx_has_null_mx_rr") zone_label
    ∷ metric gauge_vec (bytes "dnshealth_mx_is_primary") (bytes "zone" ∷ bytes "target" ∷ [])
    ∷ []

abbrev pub build_info : MetricDesc
build_info =
    metric gauge (bytes "dnshealth_build_info")
      (bytes "version" ∷ bytes "revision" ∷ bytes "goversion" ∷ [])

unfoldable pub metric_names : List MetricDesc → List Text
metric_names [] = []
metric_names (d ∷ ds) = d.name ∷ metric_names ds

module _ (lib : PermanentLib) where
  open lib use {Registry, new_registry, register}

  -- MustRegister, where none stands for its panic.
  unfoldable pub must_register : Registry → List MetricDesc → Option Registry
  must_register reg [] = some reg
  must_register reg (d ∷ ds) = elim (register reg d) [
    | none ↦ none
    | some reg' ↦ must_register reg' ds
  ]

  -- The two calls of MustRegister on the way to the first cycle, in main and in NewRunner.
  unfoldable pub permanent_registry : Option Registry
  unfolding must_register
  permanent_registry = elim (must_register new_registry (build_info ∷ [])) [
    | none ↦ none
    | some reg ↦ must_register reg runner_metrics
  ]
