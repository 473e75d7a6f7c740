-- ===== src/Examples/Gathered.antt =====
-- The registries that an answer of /metrics gathers, for a cycle over the test servers.
use dnshealth_exporter.Prelude.{
  Bool, true, false, ◌&&◌, Option, none, some, List, [], ◌∷◌, ◌≡◌, refl, sym, ap, any, eqb, All,
  if◌then◌else◌,
}
use dnshealth_exporter.Text.{Text, bytes, contains, ◌==◌}
use dnshealth_exporter.Registry.{Labels, RegistryLib, build_registry}
use dnshealth_exporter.Cycle.{probers}
use dnshealth_exporter.Cycle.Gauges.{same_labels}
use dnshealth_exporter.Cycle.Run.{ZoneEnv, run}
use dnshealth_exporter.Cycle.Registration.{runner_metrics, build_info, metric_names}
use dnshealth_exporter.Cycle.Vocabulary.Disjoint.{GatherLaws, build_registry-apart}
use dnshealth_exporter.Examples.Fixture.{network}
use dnshealth_exporter.Examples.Metrics.{vectors, runner}

-- A registry of names and labels, which refuses a pair that it has.
abbrev Gathered : Type 0
Gathered = List (Text × List Text)

abbrev label_texts : Labels → List Text
label_texts [] = []
label_texts ((k, v) ∷ labels) = k ∷ v ∷ label_texts labels

abbrev has : Gathered → Text → List Text → Bool
has [] name labels = false
has ((k, l) ∷ g) name labels = if k == name && same_labels l labels then true else has g name labels

abbrev accept : Bool → Gathered → Text → List Text → Option Gathered
accept true g name labels = none
accept false g name labels = some ((name, labels) ∷ g)

abbrev gathered_registry : RegistryLib
gathered_registry = record {
  Registry = Gathered;
  new_registry = [];
  register =
      λ g name help labels. accept (has g name (label_texts labels)) g name (label_texts labels);
  set_gauge = λ g name labels n. g;
}

abbrev gathered_names : Gathered → List Text
gathered_names [] = []
gathered_names ((name, l) ∷ g) = name ∷ gathered_names g

accept-names :
    (b : Bool) (g g' : Gathered) (name : Text) (labels : List Text)
    → accept b g name labels ≡ some g'
    → gathered_names g' ≡ name ∷ gathered_names g
accept-names true g g' name labels e = cc
accept-names false g g' name labels e = ap (λ (o : Option Gathered). of_option o) (sym e)
  where
    of_option : Option Gathered → List Text
    of_option none = []
    of_option (some g2) = gathered_names g2

abbrev laws : GatherLaws gathered_registry
laws = record {
  names = gathered_names;
  names_new = refl;
  names_register = λ g g' name help labels e.
      accept-names (has g name (label_texts labels)) g g' name (label_texts labels) e;
  names_set = λ g name labels n. refl;
}

abbrev env : Text → ZoneEnv vectors
env zone = record { net = network; looked_at = 1; stored_at = 2 }

abbrev zones : List Text
zones = bytes "example.com" ∷ []

build_registry-apart_example :
    All
      (λ t. contains (metric_names (build_info ∷ runner_metrics)) t ≡ false)
      (gathered_names (
        build_registry gathered_registry
          (run vectors probers (any (eqb b':')) 5 env zones zones 10 17 runner).0.results))
build_registry-apart_example =
    build_registry-apart gathered_registry laws vectors (any (eqb b':')) 5 env zones zones 10 17
      runner
