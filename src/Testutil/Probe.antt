-- ===== src/Testutil/Probe.antt =====
-- testutil/fixture.go: Probe, which runs one prober the way the runner does.
pub mod Discovery
use dnshealth_exporter.Prelude.{
  ℕ, ◌*◌, Bool, true, false, not, ◌&&◌, Option, none, some, List, [], ◌∷◌, ◌++◌, ◌>>=◌, return,
  if◌then◌else◌, is_nil,
}
use dnshealth_exporter.Text.{Text, contains, lookup, insert}
use dnshealth_exporter.Dns.{Net, M}
use dnshealth_exporter.Dns.Errors.{Error, Result, ok, err}
use dnshealth_exporter.Resolver.{Nameserver}
use dnshealth_exporter.Resolver.Delegation.{DelegationResult, walk_delegation}
use dnshealth_exporter.Resolver.Hostnames.{resolve_hostnames}
use dnshealth_exporter.Probe.{ProbeResult}
use dnshealth_exporter.Registry.{RegistryLib, build_registry}
use dnshealth_exporter.Cycle.{ProbeFn}
use dnshealth_exporter.Cycle.Nameservers.{Families, families_of, server_key}

-- The servers found so far, and their keys.
abbrev pub Known : Type 0
Known = List Nameserver × List Text

-- One round of the first loop, past its test for an empty address.
abbrev pub seed_unless_dup : Known → Nameserver → Known
seed_unless_dup (nss, seen) n =
    if contains seen (server_key n.hostname n.ip)
    then (nss, seen)
    else (nss ++ n ∷ [], server_key n.hostname n.ip ∷ seen)

unfoldable pub seed : Known → List Nameserver → Known
unfolding contains server_key
seed known [] = known
seed known (n ∷ ns) = if is_nil n.ip then seed known ns else seed (seed_unless_dup known n) ns

-- The default client of the fixture waits one second.
abbrev pub fixture_timeout : ℕ
fixture_timeout = 1_000_000_000

module _ (is_ipv6 : Text → Bool) where
  abbrev pub with_family : Nameserver → Families → Families
  with_family n fam =
      if not (is_nil n.ip)
      then if is_ipv6 n.ip then record fam { v6 = true } else record fam { v4 = true }
      else fam

  unfoldable pub note_families : List (Text × Families) → List Nameserver → List (Text × Families)
  unfolding lookup insert
  note_families m [] = m
  note_families m (n ∷ ns) =
      note_families (insert n.hostname (with_family n (families_of n.hostname m)) m) ns

abbrev pub add_ip : Text → Known → Text → Known
add_ip host (nss, seen) ip =
    if contains seen (server_key host ip)
    then (nss, seen)
    else (nss ++ record { hostname = host; ip = ip } ∷ [], server_key host ip ∷ seen)

unfoldable pub add_ips : Text → Known → List Text → Known
unfolding contains server_key
add_ips host known [] = known
add_ips host known (ip ∷ ips) = add_ips host (add_ip host known ip) ips

abbrev pub add_unless_failed : Text → Known → Result (List Text) → Known
add_unless_failed host known (ok ips) = add_ips host known ips
add_unless_failed host known (err e) = known

module _ (net : Net) (timeout : ℕ) where
  -- One round of the loop over the families: the host is skipped, or resolved.
  abbrev pub resolve_uncovered : Text → Families → Known → M Known
  resolve_uncovered host fam known =
      if fam.v4 && fam.v6
      then return known
      else resolve_hostnames net timeout host >>= λ ips. return (add_unless_failed host known ips)

  -- In the order in which the hosts are first seen; the source ranges over a map.
  unfoldable pub resolve_all : Known → List (Text × Families) → M Known
  unfolding resolve_hostnames add_ips
  resolve_all known [] = return known
  resolve_all known ((host, fam) ∷ m) = do
    known' ← resolve_uncovered host fam known
    resolve_all known' m

  unfoldable pub discover : (Text → Bool) → List Nameserver → M Known
  unfolding seed note_families resolve_all
  discover is_ipv6 records = resolve_all (seed ([], []) records) (note_families is_ipv6 [] records)

module _ (lib : RegistryLib) (net : Net) (is_ipv6 : Text → Bool) (fn : ProbeFn) (zone : Text) where
  open lib use {Registry, new_registry}

  -- The results that come with an error are registered too; a prober gives none then.
  abbrev pub registered : Result (List ProbeResult) → Registry
  registered (ok rs) = build_registry lib rs
  registered (err e) = build_registry lib []

  unfoldable pub probe_walked : Result DelegationResult → M Registry
  unfolding build_registry discover
  probe_walked (err e) = return new_registry
  probe_walked (ok d) = do
    (nss, _) ← discover net fixture_timeout is_ipv6 d.ns_records
    results ← fn zone nss d
    return (registered results)

  unfoldable pub probe : M Registry
  unfolding walk_delegation probe_walked
  probe = do walked ← walk_delegation net fixture_timeout zone; probe_walked walked
