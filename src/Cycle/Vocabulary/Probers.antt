-- ===== src/Cycle/Vocabulary/Probers.antt =====
-- The metrics of the probers of name servers and of the SOA record have known names.
use dnshealth_exporter.Prelude.{
  ℕ, Bool, true, false, Option, none, some, List, [], ◌∷◌, map, All-append, ◌≡◌, refl, All,
  Bool-cases, inl, inr, ◌-◌,
}
use dnshealth_exporter.Text.{Text, bytes, contains, ◌==◌}
use dnshealth_exporter.Dns.{Net, M, History, Outcome, time_now}
use dnshealth_exporter.Dns.Errors.{Result, ok, err, is_timeout}
use dnshealth_exporter.Resolver.{Nameserver}
use dnshealth_exporter.Resolver.Delegation.{DelegationResult}
use dnshealth_exporter.Probe.{ProbeResult, for_each}
use dnshealth_exporter.Probe.Recursion.{recursion_result, probe_recursion_for_ns, probe_recursion}
use dnshealth_exporter.Probe.Soa.{
  probe_soa_for_ns, on_outcome, on_soa, soa_loop, probe_soa, first_soa, soa_failed, soa_found,
  canonical_set,
}
use dnshealth_exporter.Dns.{Soa, question, type_soa}
use dnshealth_exporter.Retry.{exchange_with_retry}
use dnshealth_exporter.Probe.Glue.{
  source_result, parent_results, self_results, self_key, self_of, self_loop, probe_glue,
}
use dnshealth_exporter.Probe.NsHostname.{
  CnameResult, probe_one_ns_hostname, hostname_loop, probe_ns_hostname,
}
use dnshealth_exporter.Cycle.Vocabulary.{gauge_names, are_named, AllNamed}

abbrev Named : ProbeResult → Type 0
Named r = are_named r.metrics ≡ true

pub for_each-All :
    {A B : Type 0} (P : B → Type 0) (f : A → M B) (xs : List A) (h : History)
    → ((x : A) (h' : History) → P (f x h').0)
    → All P (for_each f xs h).0
unfolding for_each
for_each-All P f [] h p = tt
for_each-All P f (x ∷ xs) h p = (p x h, for_each-All P f xs (f x h).1 p)

All-map :
    {A B : Type 0} (P : B → Type 0) (f : A → B) (xs : List A)
    → ((x : A) → P (f x))
    → All P (map f xs)
All-map P f [] p = tt
All-map P f (x ∷ xs) p = (p x, All-map P f xs p)

module _ (net : Net) (timeout : ℕ) (zone : Text) where
  recursion_result-Named :
      (n : Nameserver) (elapsed : ℕ) (o : Outcome) → Named (recursion_result zone n elapsed o)
  unfolding recursion_result are_named contains ◌==◌
  recursion_result-Named n elapsed (ok r) = refl
  recursion_result-Named n elapsed (err e) = refl

  pub probe_recursion-AllNamed :
      (ns : List Nameserver) (h : History) → AllNamed (probe_recursion net timeout zone ns h).0
  unfolding probe_recursion probe_recursion_for_ns
  probe_recursion-AllNamed ns h =
      for_each-All Named (probe_recursion_for_ns net timeout zone) ns h
        (λ n h'. recursion_result-Named n _ _)

  soa_failed-Named : (n : Nameserver) (t : ℕ) (b : Bool) → Named (soa_failed zone n t b)
  unfolding are_named
  soa_failed-Named n t b = refl

  soa_found-Named :
      (n : Nameserver) (t : ℕ) (mname : Text) (s : Soa) (b c : Bool)
      → Named (soa_found zone n t mname s b c)
  unfolding are_named contains ◌==◌
  soa_found-Named n t mname s b c = refl

  on_soa-Named :
      (n : Nameserver) (set : List Text) (cache : List (Text × Bool)) (t : ℕ) (o : Option Soa)
      (h : History)
      → Named (on_soa net timeout zone n set cache t o h).0.0
  unfolding on_soa
  on_soa-Named n set cache t none h = soa_failed-Named n t false
  on_soa-Named n set cache t (some s) h = soa_found-Named n t (net.fqdn s.mname) s _ _

  on_outcome-Named :
      (n : Nameserver) (set : List Text) (cache : List (Text × Bool)) (t : ℕ) (o : Outcome)
      (h : History)
      → Named (on_outcome net timeout zone n set cache t o h).0.0
  unfolding on_outcome
  on_outcome-Named n set cache t (err e) h = soa_failed-Named n t (is_timeout e)
  on_outcome-Named n set cache t (ok r) h = on_soa-Named n set cache t (first_soa r.answer) h

  probe_soa_for_ns-Named :
      (n : Nameserver) (set : List Text) (cache : List (Text × Bool)) (h : History)
      → Named (probe_soa_for_ns net timeout zone set cache n h).0.0
  unfolding probe_soa_for_ns
  probe_soa_for_ns-Named n set cache h =
      let (start, h1) = time_now net h in
      let (outcome, h2) =
        exchange_with_retry net timeout (question (net.fqdn zone) type_soa)
          (net.resolve_address n.ip) h1 in
      let (stop, h3) = time_now net h2 in on_outcome-Named n set cache (stop - start) outcome h3

  soa_loop-AllNamed :
      (set : List Text) (ns : List Nameserver) (cache : List (Text × Bool)) (h : History)
      → AllNamed (soa_loop net timeout zone set cache ns h).0
  unfolding soa_loop
  soa_loop-AllNamed set [] cache h = tt
  soa_loop-AllNamed set (n ∷ ns) cache h =
      (probe_soa_for_ns-Named n set cache h, soa_loop-AllNamed set ns _ _)

  pub probe_soa-AllNamed :
      (ns : List Nameserver) (d : DelegationResult) (h : History)
      → AllNamed (probe_soa net timeout zone ns d h).0
  unfolding probe_soa
  probe_soa-AllNamed ns d h =
      soa_loop-AllNamed (canonical_set net timeout zone d.ns_records) ns [] h

  hostname_loop-AllNamed :
      (ns : List Nameserver) (cache : List (Text × CnameResult)) (h : History)
      → AllNamed (hostname_loop net timeout zone cache ns h).0
  unfolding hostname_loop probe_one_ns_hostname are_named contains ◌==◌
  hostname_loop-AllNamed [] cache h = tt
  hostname_loop-AllNamed (n ∷ ns) cache h = (refl, hostname_loop-AllNamed ns _ _)

  pub probe_ns_hostname-AllNamed :
      (ns : List Nameserver) (h : History) → AllNamed (probe_ns_hostname net timeout zone ns h).0
  unfolding probe_ns_hostname
  probe_ns_hostname-AllNamed ns h = hostname_loop-AllNamed ns [] h

record-known : contains gauge_names (bytes "ns_record") ≡ true
unfolding contains ◌==◌
record-known = refl

glue-known : contains gauge_names (bytes "ns_glue") ≡ true
unfolding contains ◌==◌
glue-known = refl

module _ (zone : Text) where
  source_result-Named :
      (metric source : Text) (n : Nameserver)
      → contains gauge_names metric ≡ true
      → Named (source_result metric source zone n)
  unfolding are_named
  source_result-Named metric source n h = rw h refl

  parent_results-AllNamed : (d : DelegationResult) → AllNamed (parent_results zone d)
  parent_results-AllNamed d =
      All-append Named (map (source_result (bytes "ns_record") (bytes "parent") zone) d.ns_records)
        (map (source_result (bytes "ns_glue") (bytes "parent") zone) d.glue)
        (All-map Named _ d.ns_records
          (λ n. source_result-Named (bytes "ns_record") (bytes "parent") n record-known))
        (All-map Named _ d.glue
          (λ n. source_result-Named (bytes "ns_glue") (bytes "parent") n glue-known))

  self_results-AllNamed :
      (metric : Text) (ns : List Nameserver) (keys : List Text)
      → contains gauge_names metric ≡ true
      → AllNamed (self_results zone metric keys ns).0
  unfolding self_results
  self_results-AllNamed metric [] keys h = tt
  self_results-AllNamed metric (n ∷ ns) keys h =
      elim (Bool-cases (contains keys (self_key metric n))) [
        | inl e ↦ rw e (self_results-AllNamed metric ns keys h)
        | inr e ↦ rw e (
          source_result-Named metric (bytes "self") n h,
          self_results-AllNamed metric ns (self_key metric n ∷ keys) h,
        )
      ]

module _ (net : Net) (timeout : ℕ) (zone : Text) where
  self_of-AllNamed :
      (n : Nameserver) (keys : List Text) (found : Result (List Nameserver × List Nameserver))
      → AllNamed (self_of net timeout zone n keys found).0
  unfolding are_named
  self_of-AllNamed n keys (err e) = (refl, tt)
  self_of-AllNamed n keys (ok (records, glues)) =
      All-append Named _ _
        (self_results-AllNamed zone (bytes "ns_record") records keys record-known)
        (self_results-AllNamed zone (bytes "ns_glue") glues _ glue-known)

  self_loop-AllNamed :
      (ns : List Nameserver) (keys : List Text) (h : History)
      → AllNamed (self_loop net timeout zone keys ns h).0
  unfolding self_loop
  self_loop-AllNamed [] keys h = tt
  self_loop-AllNamed (n ∷ ns) keys h =
      All-append Named _ _ (self_of-AllNamed n keys _) (self_loop-AllNamed ns _ _)

  pub probe_glue-AllNamed :
      (ns : List Nameserver) (d : DelegationResult) (h : History)
      → AllNamed (probe_glue net timeout zone ns d h).0
  unfolding probe_glue
  probe_glue-AllNamed ns d h =
      All-append Named _ _ (parent_results-AllNamed zone d) (self_loop-AllNamed ns [] h)
