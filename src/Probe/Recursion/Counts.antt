-- ===== src/Probe/Recursion/Counts.antt =====
-- What the recursion prober reports of each server, and the queries that it sends.
use dnshealth_exporter.Prelude.{ℕ, ◌+◌, ◌*◌, ◌≤◌, List, [], ◌∷◌, ◌≡◌, refl, arith, length}
use dnshealth_exporter.Text.{Text}
use dnshealth_exporter.Dns.{Net, History, Outcome, clock_read}
use dnshealth_exporter.Dns.Errors.{ok, err}
use dnshealth_exporter.Dns.Queries.{queries}
use dnshealth_exporter.Resolver.{Nameserver}
use dnshealth_exporter.Retry.Laws.{queries-exchange_with_retry}
use dnshealth_exporter.Probe.{ProbeResult, for_each}
use dnshealth_exporter.Probe.Recursion.{
  probe_recursion_for_ns, probe_recursion, recursive_query, recursion_result,
}

-- A result that is attributed to a server.
abbrev pub IsOf : Nameserver → ProbeResult → Type 0
IsOf n r = (r.nameserver ≡ n.hostname) × (r.ip ≡ n.ip)

abbrev pub AllOf : List Nameserver → List ProbeResult → Type 0
AllOf [] [] = Unit
AllOf (n ∷ ns) (r ∷ rs) = IsOf n r × AllOf ns rs
AllOf _ _ = ⊥

module _ (net : Net) (timeout : ℕ) (zone : Text) where
  recursion_result-IsOf :
      (n : Nameserver) (elapsed : ℕ) (o : Outcome) → IsOf n (recursion_result zone n elapsed o)
  unfolding recursion_result
  recursion_result-IsOf n elapsed (ok r) = (refl, refl)
  recursion_result-IsOf n elapsed (err e) = (refl, refl)

  one-lem :
      (n : Nameserver) (h : History)
      → IsOf n (probe_recursion_for_ns net timeout zone n h).0
        × (queries (probe_recursion_for_ns net timeout zone n h).1 ≤ queries h + 2)
  unfolding probe_recursion_for_ns
  one-lem n h = (
    recursion_result-IsOf n _ _,
    omega (
      arith,
      (queries-exchange_with_retry net timeout (recursive_query (net.fqdn zone))
          (net.resolve_address n.ip) (clock_read ∷ h)).1,
    ),
  )

  -- The recursion prober reports once on each server, in order, under its name and address, and
  -- sends at most two queries to each.
  pub probe_recursion-lem :
      (ns : List Nameserver) (h : History)
      → AllOf ns (probe_recursion net timeout zone ns h).0
        × (queries (probe_recursion net timeout zone ns h).1 ≤ queries h + 2 * length ns)
  unfolding probe_recursion for_each
  probe_recursion-lem [] h = (tt, omega arith)
  probe_recursion-lem (n ∷ ns) h =
      let (one, few) = one-lem n h in
      let (more, rest) = probe_recursion-lem ns (probe_recursion_for_ns net timeout zone n h).1 in
      ((one, more), omega (arith, few, rest))
