-- ===== src/Registry.antt =====
-- prober/registry.go: the metrics of one cycle, registered from its results.
pub mod Laws
pub mod Hidden
use dnshealth_exporter.Prelude.{ℕ, Option, none, some, List, [], ◌∷◌, ◌++◌}
use dnshealth_exporter.Text.{Text, bytes, insert}
use dnshealth_exporter.Probe.{ProbeResult, bool_to_float}

abbrev pub Labels : Type 0
Labels = List (Text × Text)

-- The registry of prometheus/client_golang: a gauge that it refuses is none.
pub record RegistryLib : Type 1 where
  pub Registry : Type 0
  pub new_registry : Registry
  pub register : Registry → (name help : Text) → Labels → Option Registry
  pub set_gauge : Registry → Text → Labels → ℕ → Registry

unfoldable pub merge_labels : Labels → Labels → Labels
unfolding insert
merge_labels base [] = base
merge_labels base ((k, v) ∷ more) = merge_labels (insert k v base) more

abbrev pub base_labels : ProbeResult → Labels
base_labels r =
    (bytes "zone", r.zone) ∷ (bytes "nameserver", r.nameserver) ∷ (bytes "ip", r.ip) ∷ []

abbrev pub success_labels : ProbeResult → Labels
success_labels r = base_labels r ++ (bytes "check", r.check) ∷ []

abbrev pub query_success : Text
query_success = bytes "dnshealth_query_success"

abbrev pub query_duration : Text
query_duration = bytes "dnshealth_query_duration_seconds"

abbrev pub success_help : Text
success_help = bytes "Whether the query to this nameserver succeeded (1=success, 0=failure)."

abbrev pub duration_help : Text
duration_help = bytes "Duration of the query to this nameserver in seconds."

module _ (lib : RegistryLib) where
  open lib use {Registry, new_registry, register, set_gauge}

  -- A gauge that is refused is skipped.
  unfoldable pub register_gauge : Text → Text → Labels → ℕ → Registry → Registry
  register_gauge name help labels value reg = elim (register reg name help labels) [
    | none ↦ reg
    | some reg' ↦ set_gauge reg' name labels value
  ]

  unfoldable pub register_metrics : Labels → List (Text × ℕ) → Registry → Registry
  unfolding register_gauge
  register_metrics labels [] reg = reg
  register_metrics labels ((name, value) ∷ more) reg =
      register_metrics labels more (register_gauge (bytes "dnshealth_" ++ name) [] labels value reg)

  -- The three kinds of gauges of one result; the duration stays in nanoseconds.
  unfoldable pub add_result : Registry → ProbeResult → Registry
  unfolding register_metrics merge_labels register_gauge
  add_result reg r = register_metrics (merge_labels (base_labels r) r.labels) r.metrics (
      register_gauge query_duration duration_help (success_labels r) r.duration (
        register_gauge query_success success_help (success_labels r) (bool_to_float r.success) reg))

  unfoldable pub add_results : Registry → List ProbeResult → Registry
  unfolding add_result
  add_results reg [] = reg
  add_results reg (r ∷ rs) = add_results (add_result reg r) rs

  unfoldable pub build_registry : List ProbeResult → Registry
  unfolding add_results
  build_registry = add_results new_registry
