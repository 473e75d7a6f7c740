-- ===== src/Cycle/Vocabulary/Disjoint.antt =====
-- The names of the registry of a cycle beside those of the permanent registry, which one answer of
-- /metrics gathers.
use dnshealth_exporter.Prelude.{
  ℕ, Bool, true, false, not, ◌&&◌, Option, none, some, List, [], ◌∷◌, ◌++◌, ◌≡◌, refl, sym, ap, ◌∙◌,
  All, all, Bool-cases, inl, inr, arith, subst, &&-eq-true,
}
use dnshealth_exporter.Text.{Text, bytes, contains, ◌==◌}
use dnshealth_exporter.Text.Equality.{==_iff}
use dnshealth_exporter.Probe.{ProbeResult}
use dnshealth_exporter.Registry.{
  Labels, RegistryLib, query_success, query_duration, register_gauge, register_metrics, add_result,
  add_results, build_registry,
}
use dnshealth_exporter.Cycle.Gauges.{VecLib}
use dnshealth_exporter.Cycle.{probers}
use dnshealth_exporter.Cycle.Run.{Runner, ZoneEnv, run}
use dnshealth_exporter.Cycle.Registration.{runner_metrics, build_info, metric_names}
use dnshealth_exporter.Cycle.Vocabulary.{gauge_names, are_named, AllNamed}
use dnshealth_exporter.Cycle.Vocabulary.Cycles.{run-AllNamed}

unfoldable pub prefixed : List Text → List Text
prefixed [] = []
prefixed (t ∷ ts) = (bytes "dnshealth_" ++ t) ∷ prefixed ts

abbrev pub cycle_names : List Text
cycle_names = query_success ∷ query_duration ∷ prefixed gauge_names

abbrev pub permanent_names : List Text
permanent_names = metric_names (build_info ∷ runner_metrics)

-- No text is in both lists.
unfoldable apart : List Text → List Text → Bool
unfolding contains
apart taken [] = true
apart taken (t ∷ ts) = not (contains taken t) && apart taken ts

apart-contains :
    (taken ts : List Text) (t : Text)
    → apart taken ts ≡ true
    → contains ts t ≡ true
    → contains taken t ≡ false
unfolding apart contains
apart-contains taken [] t h k = cc
apart-contains taken (x ∷ ts) t h k = elim (Bool-cases (x == t)) [
  | inl e ↦ ap (contains taken) (sym ((==_iff x t).0 e)) ∙ ground (arith, h)
  | inr e ↦ apart-contains taken ts t (ground (arith, h)) (ground (arith, k, e))
]

names-apart : apart permanent_names cycle_names ≡ true
unfolding apart contains ◌==◌ prefixed metric_names
names-apart = refl

==-prefix : (p a b : Text) → ((p ++ a) == (p ++ b)) ≡ (a == b)
unfolding ◌==◌
==-prefix [] a b = refl
==-prefix (c ∷ p) a b = ground (arith, ==-prefix p a b)

contains-prefixed :
    (ts : List Text) (t : Text) → contains (prefixed ts) (bytes "dnshealth_" ++ t) ≡ contains ts t
unfolding contains prefixed
contains-prefixed [] t = refl
contains-prefixed (x ∷ ts) t = rw (==-prefix (bytes "dnshealth_") x t, contains-prefixed ts t) refl

-- What the registry of prometheus/client_golang promises of the names that it gathers: a
-- registration adds the name of its gauge, and a value adds none.
pub record GatherLaws (lib : RegistryLib) : Type 0 where
  pub names : lib.Registry → List Text
  pub names_new : names lib.new_registry ≡ []
  pub names_register :
      (reg reg' : lib.Registry) (name help : Text) (labels : Labels)
      → lib.register reg name help labels ≡ some reg'
      → names reg' ≡ name ∷ names reg
  pub names_set :
      (reg : lib.Registry) (name : Text) (labels : Labels) (n : ℕ)
      → names (lib.set_gauge reg name labels n) ≡ names reg

contains-cons :
    (x : Text) (ts : List Text) (t : Text) → contains ts t ≡ true → contains (x ∷ ts) t ≡ true
unfolding contains
contains-cons x ts t h = ground (arith, h)

contains-cycle_names :
    (t : Text)
    → contains gauge_names t ≡ true
    → contains cycle_names (bytes "dnshealth_" ++ t) ≡ true
contains-cycle_names t h =
    let name = bytes "dnshealth_" ++ t in
    contains-cons query_success (query_duration ∷ prefixed gauge_names) name (
      contains-cons query_duration (prefixed gauge_names) name
        (contains-prefixed gauge_names t ∙ h))

query_names-known :
    (contains cycle_names query_success ≡ true) × (contains cycle_names query_duration ≡ true)
unfolding contains ◌==◌
query_names-known = (refl, refl)

abbrev AllOf : List Text → Type 0
AllOf = All (λ t. contains cycle_names t ≡ true)

module _ (lib : RegistryLib) (laws : GatherLaws lib) where
  open lib use {Registry}
  open laws use {names}

  register_gauge-AllOf :
      (name help : Text) (labels : Labels) (n : ℕ) (reg : Registry)
      → contains cycle_names name ≡ true
      → AllOf (names reg)
      → AllOf (names (register_gauge lib name help labels n reg))
  unfolding register_gauge
  register_gauge-AllOf name help labels n reg k h =
      by_reply (lib.register reg name help labels) refl
    where
      by_reply :
          (o : Option Registry)
          → lib.register reg name help labels ≡ o
          → AllOf (names (elim o [ none ↦ reg | some reg' ↦ lib.set_gauge reg' name labels n ]))
      by_reply none e = h
      by_reply (some reg') e =
          subst AllOf
            (sym
              (laws.names_set reg' name labels n ∙ laws.names_register reg reg' name help labels e))
            (k, h)

  register_metrics-AllOf :
      (labels : Labels) (ms : List (Text × ℕ)) (reg : Registry)
      → are_named ms ≡ true
      → AllOf (names reg)
      → AllOf (names (register_metrics lib labels ms reg))
  unfolding register_metrics are_named
  register_metrics-AllOf labels [] reg k h = h
  register_metrics-AllOf labels ((name, n) ∷ ms) reg k h =
      let (k0, k1) =
        &&-eq-true (contains gauge_names name) (all (λ m. contains gauge_names m.0) ms) k in
      register_metrics-AllOf labels ms _ k1 (
        register_gauge-AllOf (bytes "dnshealth_" ++ name) [] labels n reg
          (contains-cycle_names name k0) h)

  add_result-AllOf :
      (r : ProbeResult) (reg : Registry)
      → are_named r.metrics ≡ true
      → AllOf (names reg)
      → AllOf (names (add_result lib reg r))
  unfolding add_result
  add_result-AllOf r reg k h = register_metrics-AllOf _ r.metrics _ k (
      register_gauge-AllOf query_duration _ _ r.duration _ query_names-known.1
        (register_gauge-AllOf query_success _ _ _ reg query_names-known.0 h))

  add_results-AllOf :
      (rs : List ProbeResult) (reg : Registry)
      → AllNamed rs
      → AllOf (names reg)
      → AllOf (names (add_results lib reg rs))
  unfolding add_results
  add_results-AllOf [] reg k h = h
  add_results-AllOf (r ∷ rs) reg (k, ks) h =
      add_results-AllOf rs (add_result lib reg r) ks (add_result-AllOf r reg k h)

  build_registry-AllOf :
      (rs : List ProbeResult) → AllNamed rs → AllOf (names (build_registry lib rs))
  unfolding build_registry
  build_registry-AllOf rs k =
      add_results-AllOf rs lib.new_registry k (subst AllOf (sym laws.names_new) tt)

AllOf-apart : (ts : List Text) → AllOf ts → All (λ t. contains permanent_names t ≡ false) ts
AllOf-apart [] h = tt
AllOf-apart (t ∷ ts) (h, hs) =
    (apart-contains permanent_names cycle_names t names-apart h, AllOf-apart ts hs)

-- Whatever the network answers in a cycle, no gauge of the registry that is built from its results
-- has the name of a metric of the permanent registry, so that the answer of /metrics, which gathers
-- both, never has one name from two registries; the registry is one that has the names of the
-- gauges that it accepted.
pub build_registry-apart :
    (lib : RegistryLib) (laws : GatherLaws lib) (vectors : VecLib) (is_ipv6 : Text → Bool)
    (timeout : ℕ) (env : Text → ZoneEnv vectors) (zones order : List Text) (start stop : ℕ)
    (r : Runner vectors)
    → All
        (λ t. contains (metric_names (build_info ∷ runner_metrics)) t ≡ false)
        (laws.names (
          build_registry lib
            (run vectors probers is_ipv6 timeout env zones order start stop r).0.results))
build_registry-apart lib laws vectors is_ipv6 timeout env zones order start stop r = AllOf-apart _ (
    build_registry-AllOf lib laws _
      (run-AllNamed vectors is_ipv6 timeout env zones order start stop r))
