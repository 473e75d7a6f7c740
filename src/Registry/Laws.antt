-- ===== src/Registry/Laws.antt =====
-- Which of several results that give a gauge the same labels is the one that the registry shows.
use dnshealth_exporter.Prelude.{
  ℕ, Bool, true, Option, none, some, List, [], ◌∷◌, ◌++◌, ◌≡◌, refl, ◌∙◌, arith, if◌then◌else◌,
  Bool-cases, inl, inr,
}
use dnshealth_exporter.Text.{Text, bytes}
use dnshealth_exporter.Probe.{ProbeResult}
use dnshealth_exporter.Registry.{
  Labels, RegistryLib, query_success, query_duration, success_help, duration_help, register_gauge,
  register_metrics, add_result, add_results,
}

-- What the registry promises: the value of a series, none while it is not registered. A series that
-- has a value is refused a second time; a registration leaves the values of the others.
pub record RegistryLaws (lib : RegistryLib) : Type 0 where
  pub value : lib.Registry → Text → Labels → Option ℕ
  pub same_series : Text → Labels → Text → Labels → Bool
  pub same_series_refl :
      (name : Text) (labels : Labels) → same_series name labels name labels ≡ true
  pub refused :
      (reg : lib.Registry) (name help k : Text) (labels l : Labels) (n : ℕ)
      → value reg k l ≡ some n
      → same_series name labels k l ≡ true
      → lib.register reg name help labels ≡ none
  pub value_register :
      (reg reg' : lib.Registry) (name help k : Text) (labels l : Labels)
      → lib.register reg name help labels ≡ some reg'
      → value reg' k l ≡ value reg k l
  pub value_set :
      (reg : lib.Registry) (name k : Text) (labels l : Labels) (n : ℕ)
      → value (lib.set_gauge reg name labels n) k l
        ≡ (if same_series name labels k l then some n else value reg k l)

module _ (lib : RegistryLib) (laws : RegistryLaws lib) where
  open lib use {Registry}
  open laws use {value, same_series}

  pub register_gauge-keeps :
      (name help k : Text) (labels l : Labels) (m n : ℕ) (reg : Registry)
      → value reg k l ≡ some n
      → value (register_gauge lib name help labels m reg) k l ≡ some n
  unfolding register_gauge
  register_gauge-keeps name help k labels l m n reg h =
      by_reply (lib.register reg name help labels) refl
    where
      by_reply :
          (o : Option Registry)
          → lib.register reg name help labels ≡ o
          → value (elim o [ none ↦ reg | some reg' ↦ lib.set_gauge reg' name labels m ]) k l
            ≡ some n
      by_reply none e = h
      by_reply (some reg') e = elim (Bool-cases (same_series name labels k l)) [
        | inl s ↦ ground (arith, e, laws.refused reg name help k labels l n h s)
        | inr s ↦
            laws.value_set reg' name k labels l m
            ∙ rw s (laws.value_register reg reg' name help k labels l e ∙ h)
      ]

  pub register_metrics-keeps :
      (k : Text) (labels l : Labels) (n : ℕ) (ms : List (Text × ℕ)) (reg : Registry)
      → value reg k l ≡ some n
      → value (register_metrics lib labels ms reg) k l ≡ some n
  unfolding register_metrics
  register_metrics-keeps k labels l n [] reg h = h
  register_metrics-keeps k labels l n ((name, m) ∷ ms) reg h =
      register_metrics-keeps k labels l n ms _
        (register_gauge-keeps (bytes "dnshealth_" ++ name) [] k labels l m n reg h)

  add_result-keeps :
      (k : Text) (l : Labels) (n : ℕ) (r : ProbeResult) (reg : Registry)
      → value reg k l ≡ some n
      → value (add_result lib reg r) k l ≡ some n
  unfolding add_result
  add_result-keeps k l n r reg h = register_metrics-keeps k _ l n r.metrics _ (
      register_gauge-keeps query_duration duration_help k _ l _ n _
        (register_gauge-keeps query_success success_help k _ l _ n reg h))

  -- A gauge that the registry shows keeps its value whatever results are added later.
  pub add_results-keeps :
      (k : Text) (l : Labels) (n : ℕ) (rs : List ProbeResult) (reg : Registry)
      → value reg k l ≡ some n
      → value (add_results lib reg rs) k l ≡ some n
  unfolding add_results
  add_results-keeps k l n [] reg h = h
  add_results-keeps k l n (r ∷ rs) reg h =
      add_results-keeps k l n rs (add_result lib reg r) (add_result-keeps k l n r reg h)
