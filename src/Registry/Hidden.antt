-- ===== src/Registry/Hidden.antt =====
-- What becomes of the failed query of a server that the parent lists (prober/glue.go).
use dnshealth_exporter.Prelude.{
  ℕ, Bool, Option, none, some, List, [], ◌∷◌, ◌++◌, map, append_assoc, ◌≡◌, refl, ap, ◌∙◌,
  if◌then◌else◌,
}
use dnshealth_exporter.Text.{Text, bytes}
use dnshealth_exporter.Dns.Errors.{Error}
use dnshealth_exporter.Dns.{Net, History}
use dnshealth_exporter.Resolver.{Nameserver}
use dnshealth_exporter.Resolver.Delegation.{DelegationResult}
use dnshealth_exporter.Probe.{ProbeResult}
use dnshealth_exporter.Probe.Glue.{source_result, glue_failed, self_loop, probe_glue}
use dnshealth_exporter.Registry.{
  Labels, RegistryLib, merge_labels, base_labels, success_labels, query_success, query_duration,
  success_help, duration_help, register_gauge, add_result, add_results, build_registry,
}
use dnshealth_exporter.Registry.Laws.{
  RegistryLaws, register_gauge-keeps, register_metrics-keeps, add_results-keeps,
}

map-append : {A B : Type 0} (f : A → B) (xs ys : List A) → map f (xs ++ ys) ≡ map f xs ++ map f ys
map-append f [] ys = refl
map-append f (x ∷ xs) ys = ap (λ zs. f x ∷ zs) (map-append f xs ys)

module _ (lib : RegistryLib) (laws : RegistryLaws lib) where
  open lib use {Registry, set_gauge, register}
  open laws use {value}

  register_gauge-sets :
      (name help : Text) (labels : Labels) (n : ℕ) (reg reg' : Registry)
      → register reg name help labels ≡ some reg'
      → value (register_gauge lib name help labels n reg) name labels ≡ some n
  unfolding register_gauge
  register_gauge-sets name help labels n reg reg' e =
      ap
        (λ (o : Option Registry).
          value (elim o [ none ↦ reg | some r ↦ set_gauge r name labels n ]) name labels)
        e
      ∙ laws.value_set reg' name name labels labels n
      ∙ ap (λ (b : Bool). if◌then◌else◌ {A = Option ℕ} b (some n) (value reg' name labels))
          (laws.same_series_refl name labels)

  add_results-append :
      (xs ys : List ProbeResult) (reg : Registry)
      → add_results lib reg (xs ++ ys) ≡ add_results lib (add_results lib reg xs) ys
  unfolding add_results
  add_results-append [] ys reg = refl
  add_results-append (x ∷ xs) ys reg = add_results-append xs ys (add_result lib reg x)

  listed-shown :
      (zone : Text) (n : Nameserver) (e : Error) (later : List ProbeResult) (reg reg' : Registry)
      → let listed = source_result (bytes "ns_record") (bytes "parent") zone n in
        register reg query_success success_help (success_labels listed) ≡ some reg'
        → value
            (add_results lib (add_result lib reg listed) later)
            query_success
            (success_labels (glue_failed zone n e))
          ≡ some 1
  unfolding add_result
  listed-shown zone n e later reg reg' taken =
      let listed = source_result (bytes "ns_record") (bytes "parent") zone n in
      let key = success_labels listed in
      add_results-keeps lib laws query_success key 1 later (add_result lib reg listed) (
        register_metrics-keeps lib laws query_success
          (merge_labels (base_labels listed) listed.labels) key 1 listed.metrics _
          (register_gauge-keeps lib laws query_duration duration_help query_success key key 0 1 _
            (register_gauge-sets query_success success_help key 1 reg reg' taken)))

  -- In the registry that is built from the results of the glue prober the success gauge shows 1
  -- under the labels that the failed query of a server reports, whatever the network answers and
  -- whichever servers are queried, if the parent lists the server and the registry takes the gauge
  -- of this record: the failure is never shown.
  pub glue_failure-hidden :
      (net : Net) (timeout : ℕ) (zone : Text) (nameservers : List Nameserver) (d : DelegationResult)
      (h : History) (before : List Nameserver) (n : Nameserver) (later : List Nameserver)
      (e : Error) (reg' : Registry)
      → d.ns_records ≡ before ++ n ∷ later
      → let source = source_result (bytes "ns_record") (bytes "parent") zone in
        register
            (build_registry lib (map source before))
            query_success
            success_help
            (success_labels (source n))
          ≡ some reg'
        → value
            (build_registry lib (probe_glue net timeout zone nameservers d h).0)
            query_success
            (success_labels (glue_failed zone n e))
          ≡ some 1
  unfolding build_registry probe_glue
  glue_failure-hidden net timeout zone nameservers d h before n later e reg' listed taken =
      let own = (self_loop net timeout zone [] nameservers h).0 in
      let source = source_result (bytes "ns_record") (bytes "parent") zone in
      let glues = map (source_result (bytes "ns_glue") (bytes "parent") zone) d.glue in
      rw
        (
          listed,
          map-append source before (n ∷ later),
          append_assoc (map source before) (source n ∷ map source later) glues,
          append_assoc (map source before) (source n ∷ (map source later ++ glues)) own,
          add_results-append (map source before) (source n ∷ ((map source later ++ glues) ++ own))
              lib.new_registry,
        )
        (listed-shown zone n e ((map source later ++ glues) ++ own) _ reg' taken)
