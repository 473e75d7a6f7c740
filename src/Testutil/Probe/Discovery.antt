-- ===== src/Testutil/Probe/Discovery.antt =====
-- The discovery of the name servers in the fixture's Probe and in the runner.
use dnshealth_exporter.Prelude.{
  ℕ, ◌≡◌, refl, ap, ap₂, ◌∙◌, Bool, true, false, not, ◌&&◌, ◌||◌, List, [], ◌∷◌, ◌>>=◌, return,
  if◌then◌else◌, is_nil, Bool-cases, inl, inr,
}
use dnshealth_exporter.Text.{Text, insert}
use dnshealth_exporter.Dns.{Net, M, History}
use dnshealth_exporter.Dns.Errors.{Result, ok, err}
use dnshealth_exporter.Resolver.{Nameserver}
use dnshealth_exporter.Resolver.Hostnames.{resolve_hostnames}
use dnshealth_exporter.Cycle.{add_addresses, add_resolved, augment}
use dnshealth_exporter.Cycle.Nameservers.{
  Families, families_of, initial_from, build_initial_nameservers, cover, families, uncovered,
  hosts_needing_augmentation,
}
use dnshealth_exporter.Testutil.Probe.{
  Known, seed, seed_unless_dup, with_family, note_families, add_ip, add_ips, add_unless_failed,
  resolve_all, discover,
}

seed-initial_from : (known : Known) (ns : List Nameserver) → seed known ns ≡ initial_from known ns
unfolding seed initial_from
seed-initial_from known [] = refl
seed-initial_from known (n ∷ ns) = elim (Bool-cases (is_nil n.ip)) [
  | inl e ↦ rw e (seed-initial_from known ns)
  | inr e ↦ rw e (seed-initial_from (seed_unless_dup known n) ns)
]

with_family-cover :
    (is_ipv6 : Text → Bool) (n : Nameserver) (fam : Families)
    → with_family is_ipv6 n fam ≡ cover is_ipv6 n.ip fam
with_family-cover is_ipv6 n fam = elim (Bool-cases (is_nil n.ip)) [
  | inl e ↦ rw e refl
  | inr e ↦ rw e refl
]

note_families-families :
    (is_ipv6 : Text → Bool) (ns : List Nameserver) (m : List (Text × Families))
    → note_families is_ipv6 m ns ≡ families is_ipv6 m ns
unfolding note_families families
note_families-families is_ipv6 [] m = refl
note_families-families is_ipv6 (n ∷ ns) m =
    note_families-families is_ipv6 ns _
    ∙ ap (λ fam. families is_ipv6 (insert n.hostname fam m) ns)
        (with_family-cover is_ipv6 n (families_of n.hostname m))

module _ (net : Net) (timeout : ℕ) where
  add_ips-add_addresses :
      (host : Text) (ips : List Text) (known : Known)
      → add_ips host known ips ≡ add_addresses net timeout host known ips
  unfolding add_ips add_addresses
  add_ips-add_addresses host [] known = refl
  add_ips-add_addresses host (ip ∷ ips) known =
      add_ips-add_addresses host ips (add_ip host known ip)

  add_unless_failed-add_resolved :
      (host : Text) (known : Known) (ips : Result (List Text))
      → add_unless_failed host known ips ≡ add_resolved net timeout host known ips
  add_unless_failed-add_resolved host known (ok ips) = add_ips-add_addresses host ips known
  add_unless_failed-add_resolved host known (err e) = refl

  module _ (is_ipv6 : Text → Bool) where
    augment-none : (known : Known) (h : History) → (known, h) ≡ augment net timeout known [] h
    unfolding augment
    augment-none known h = refl

    -- A host that is resolved, in both loops.
    resolved-augment :
        (host : Text) (known : Known) (m : List (Text × Families)) (h : History)
        → ((known' : Known) (h' : History)
            → resolve_all net timeout known' m h'
              ≡ augment net timeout known' (uncovered is_ipv6 m) h')
        → (resolve_hostnames net timeout host
              >>= (λ ips. return (add_unless_failed host known ips))
              >>= (λ known'. resolve_all net timeout known' m))
            h
          ≡ augment net timeout known (host ∷ uncovered is_ipv6 m) h
    unfolding augment
    resolved-augment host known m h ih =
        let (ips, h') = resolve_hostnames net timeout host h in
        ih (add_unless_failed host known ips) h'
        ∙ ap (λ k. augment net timeout k (uncovered is_ipv6 m) h')
            (add_unless_failed-add_resolved host known ips)

    -- A host whose families are as given, in both loops.
    by_families :
        (v4 v6 : Bool) (host : Text) (known : Known) (m : M Known) (k : Known → M Known)
        (h : History) (rest : List Text)
        → k known h ≡ augment net timeout known rest h
        → (m >>= k) h ≡ augment net timeout known (host ∷ rest) h
        → ((if v4 && v6 then return known else m) >>= k) h
          ≡ augment net timeout known (if not v4 || not v6 then host ∷ rest else rest) h
    by_families true true host known m k h rest p q = p
    by_families true false host known m k h rest p q = q
    by_families false true host known m k h rest p q = q
    by_families false false host known m k h rest p q = q

    -- Skipping the covered hosts one by one is to resolve those that are not covered.
    resolve_all-augment :
        (m : List (Text × Families)) (known : Known) (h : History)
        → resolve_all net timeout known m h ≡ augment net timeout known (uncovered is_ipv6 m) h
    unfolding resolve_all uncovered
    resolve_all-augment [] known h = augment-none known h
    resolve_all-augment ((host, fam) ∷ m) known h =
        by_families fam.v4 fam.v6 host known
          (resolve_hostnames net timeout host
            >>= (λ ips. return (add_unless_failed host known ips)))
          (λ known'. resolve_all net timeout known' m) h (uncovered is_ipv6 m)
          (resolve_all-augment m known h) (resolved-augment host known m h (resolve_all-augment m))

    -- The servers and the keys that the fixture's Probe finds for the records of a delegation, and
    -- the queries that it sends for them, are those of the runner: the deduplicated glue, with the
    -- resolved addresses of the hosts whose glue lacks a family.
    pub discover-runner :
        (records : List Nameserver) (h : History)
        → discover net timeout is_ipv6 records h
          ≡ augment net timeout
              (build_initial_nameservers records)
              (hosts_needing_augmentation is_ipv6 records)
              h
    unfolding discover build_initial_nameservers hosts_needing_augmentation
    discover-runner records h =
        resolve_all-augment (note_families is_ipv6 [] records) (seed ([], []) records) h
        ∙ ap₂ (λ known m. augment net timeout known (uncovered is_ipv6 m) h)
            (seed-initial_from ([], []) records) (note_families-families is_ipv6 records [])
