-- ===== src/Cycle/Aggregate/Counters.antt =====
-- The counters of the servers after a cycle.
use dnshealth_exporter.Prelude.{
  ℕ, ◌+◌, Bool, not, ◌&&◌, List, [], ◌∷◌, ◌≡◌, inl, inr, refl, ap, ◌∙◌, arith, if◌then◌else◌,
  is_nil, count, Bool-cases,
}
use dnshealth_exporter.Text.{Text, ◌==◌}
use dnshealth_exporter.Text.Equality.{==_iff}
use dnshealth_exporter.Probe.{ProbeResult}
use dnshealth_exporter.Cycle.Gauges.{VecLib, same_labels, or_zero}
use dnshealth_exporter.Cycle.Aggregate.{Gauges, count_query, count_queries}

-- A result of the server, and one that timed out.
abbrev pub names_address : Text → ProbeResult → Bool
names_address ip r = not (is_nil r.ip) && r.ip == ip

abbrev pub timed_out_at : Text → ProbeResult → Bool
timed_out_at ip r = r.timed_out && names_address ip r

-- The time that the results of the server took.
abbrev pub time_at : Text → List ProbeResult → ℕ
time_at ip [] = 0
time_at ip (r ∷ rs) = (if names_address ip r then r.duration else 0) + time_at ip rs

module _ (lib : VecLib) where
  open lib use {Vec, add, value}

  abbrev pub counter : Vec → Text → ℕ
  counter v ip = or_zero (value v (ip ∷ []))

  counter-add :
      (v : Vec) (at ip : Text) (n : ℕ)
      → counter (add v (at ∷ []) n) ip ≡ counter v ip + (if at == ip then n else 0)
  unfolding same_labels
  counter-add v at ip n = elim (Bool-cases (at == ip)) [
    | inl e ↦
        let same = (==_iff at ip).0 e in
        ap or_zero (lib.value_add v (at ∷ []) (ip ∷ []) n) ∙ rw (e, same) refl
    | inr e ↦ ap or_zero (lib.value_add v (at ∷ []) (ip ∷ []) n) ∙ rw e (omega arith)
  ]

  -- What the counters of a server gain.
  pub record Gains (ip : Text) (rs : List ProbeResult) (g g' : Gauges lib) : Type 0 where
    pub queries_ok :
        counter g'.dns_queries ip ≡ counter g.dns_queries ip + count (names_address ip) rs
    pub duration_ok : counter g'.dns_duration ip ≡ counter g.dns_duration ip + time_at ip rs
    pub timeouts_ok :
        counter g'.dns_timeouts ip ≡ counter g.dns_timeouts ip + count (timed_out_at ip) rs

  count_query-Gains :
      (ip : Text) (r : ProbeResult) (g : Gauges lib) → Gains ip (r ∷ []) g (count_query lib r g)
  count_query-Gains ip r g = elim (Bool-cases (is_nil r.ip)) [
    | inl e ↦ rw e (record {
      queries_ok = ground (arith, e);
      duration_ok = ground (arith, e);
      timeouts_ok = ground (arith, e);
    })
    | inr e ↦ rw e (record {
      queries_ok = ground (arith, e, counter-add g.dns_queries r.ip ip 1);
      duration_ok = ground (arith, e, counter-add g.dns_duration r.ip ip r.duration);
      timeouts_ok = ground (arith, e, counter-add g.dns_timeouts r.ip ip 1);
    })
  ]

  -- Over the results of a cycle the three counters of an address gain the number of the results that
  -- name it, the sum of their durations, and the number of those that timed out, however many
  -- queries, none or several, stand behind a result.
  pub count_queries-Gains :
      (ip : Text) (rs : List ProbeResult) (g : Gauges lib) → Gains ip rs g (count_queries lib rs g)
  unfolding count_queries
  count_queries-Gains ip [] g = record {
    queries_ok = omega arith;
    duration_ok = omega arith;
    timeouts_ok = omega arith;
  }
  count_queries-Gains ip (r ∷ rs) g =
      let one = count_query-Gains ip r g in
      let more = count_queries-Gains ip rs (count_query lib r g) in
      record {
        queries_ok = omega (arith, one.queries_ok, more.queries_ok);
        duration_ok = omega (arith, one.duration_ok, more.duration_ok);
        timeouts_ok = omega (arith, one.timeouts_ok, more.timeouts_ok);
      }
