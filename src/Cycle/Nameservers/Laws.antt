-- ===== src/Cycle/Nameservers/Laws.antt =====
-- The servers that a zone is probed at, and the hosts whose addresses are looked up besides.
use dnshealth_exporter.Prelude.{
  Bool, true, false, not, ◌&&◌, ◌||◌, Option, none, some, List, [], ◌∷◌, ◌++◌, ◌≡◌, refl, sym, ap,
  ◌∙◌, arith, if◌then◌else◌, is_nil, any, Bool-cases, inl, inr,
}
use dnshealth_exporter.Text.{Text, ◌==◌, contains, lookup, insert}
use dnshealth_exporter.Text.Maps.{
  contains-append, is_distinct-snoc, is_distinct, map_keys, contains-map_keys-insert,
  is_distinct-map_keys-insert, lookup-missing,
}
use dnshealth_exporter.Text.Equality.{==_iff, lookup-insert}
use dnshealth_exporter.Resolver.{Nameserver}
use dnshealth_exporter.Cycle.Nameservers.{
  server_key, initial_from, build_initial_nameservers, Families, or_uncovered, families_of, cover,
  families, uncovered, hosts_needing_augmentation,
}

-- The keys of a list of servers, in order.
unfoldable pub keys : List Nameserver → List Text
unfolding server_key
keys [] = []
keys (n ∷ ns) = server_key n.hostname n.ip ∷ keys ns

-- A record with an address whose key is the given one.
unfoldable pub names_key : Text → Nameserver → Bool
unfolding server_key ◌==◌
names_key key n = not (is_nil n.ip) && server_key n.hostname n.ip == key

keys-append : (a b : List Nameserver) → keys (a ++ b) ≡ keys a ++ keys b
unfolding keys
keys-append [] b = refl
keys-append (n ∷ a) b = ap (◌∷◌ (server_key n.hostname n.ip)) (keys-append a b)

-- The loop: the keys that are seen are those of the servers so far, and no key comes twice.
abbrev Ready : List Nameserver × List Text → Type 0
Ready s = (is_distinct (keys s.0) ≡ true) × ((t : Text) → contains (keys s.0) t ≡ contains s.1 t)

abbrev taken : List Nameserver × List Text → Nameserver → List Nameserver × List Text
taken s n =
    if is_nil n.ip || contains s.1 (server_key n.hostname n.ip)
    then s
    else (s.0 ++ n ∷ [], server_key n.hostname n.ip ∷ s.1)

contains-keys_snoc :
    (nss : List Nameserver) (n : Nameserver) (t : Text)
    → contains (keys (nss ++ n ∷ [])) t ≡ (contains (keys nss) t || server_key n.hostname n.ip == t)
unfolding contains keys
contains-keys_snoc nss n t =
    ap (λ ks. contains ks t) (keys-append nss (n ∷ []))
    ∙ contains-append (keys nss) (server_key n.hostname n.ip ∷ []) t
    ∙ ground arith

taken-lem :
    (s : List Nameserver × List Text) (n : Nameserver)
    → Ready s
    → Ready (taken s n)
      × ((t : Text) → contains (keys (taken s n).0) t ≡ (contains (keys s.0) t || names_key t n))
unfolding names_key contains keys
taken-lem (nss, seen) n (d, same) =
    let key = server_key n.hostname n.ip in
    elim (Bool-cases (is_nil n.ip || contains seen key)) [
      | inl e ↦ rw e ((d, same), λ t. ground (arith, e, same key, ==_iff key t, same t))
      | inr e ↦ rw e (
        (
          ap is_distinct (keys-append nss (n ∷ []))
              ∙ is_distinct-snoc (keys nss) key d (ground (arith, e, same key)),
          λ t. contains-keys_snoc nss n t ∙ ground (arith, same t),
        ),
        λ t. contains-keys_snoc nss n t ∙ ground (arith, e),
      )
    ]

initial_from-lem :
    (ns : List Nameserver) (s : List Nameserver × List Text)
    → Ready s
    → Ready (initial_from s ns)
      × ((t : Text)
          → contains (keys (initial_from s ns).0) t
            ≡ (contains (keys s.0) t || any (names_key t) ns))
unfolding initial_from
initial_from-lem [] s h = (h, λ t. ground arith)
initial_from-lem (n ∷ ns) s h =
    let (ready, one) = taken-lem s n h in
    let (ready', more) = initial_from-lem ns (taken s n) ready in
    (ready', λ t. more t ∙ ground (arith, one t))

-- The servers that a zone's records give have different keys; a key is among them exactly if some
-- record with an address has it; and the keys that count as seen are the keys of these servers.
pub build_initial_nameservers-keys :
    (ns : List Nameserver)
    → (is_distinct (keys (build_initial_nameservers ns).0) ≡ true)
      × ((key : Text)
          → contains (keys (build_initial_nameservers ns).0) key ≡ any (names_key key) ns)
      × ((key : Text)
          → contains (build_initial_nameservers ns).1 key
            ≡ contains (keys (build_initial_nameservers ns).0) key)
unfolding build_initial_nameservers is_distinct keys contains
build_initial_nameservers-keys ns =
    let ((d, same), all_keys) = initial_from-lem ns ([], []) (refl, λ t. refl) in
    (d, all_keys, λ t. sym (same t))

-- A record of the host.
abbrev pub of_host : Text → Nameserver → Bool
of_host host n = n.hostname == host

module _ (is_ipv6 : Text → Bool) where
  -- A record of the host with an address of either family.
  abbrev pub gives_v4 : Text → Nameserver → Bool
  gives_v4 host n = n.hostname == host && (not (is_nil n.ip) && not (is_ipv6 n.ip))

  abbrev pub gives_v6 : Text → Nameserver → Bool
  gives_v6 host n = n.hostname == host && (not (is_nil n.ip) && is_ipv6 n.ip)

  needs : Option Families → Bool
  needs none = false
  needs (some f) = not f.v4 || not f.v6

  is_some : Option Families → Bool
  is_some none = false
  is_some (some f) = true

  contains-hosts :
      (m : List (Text × Families)) (host : Text)
      → contains (map_keys m) host ≡ is_some (lookup host m)
  unfolding lookup contains map_keys is_some
  contains-hosts [] host = refl
  contains-hosts ((j, f) ∷ m) host = ground (arith, contains-hosts m host)

  needs-some :
      (o : Option Families)
      → needs o ≡ (is_some o && (not (or_uncovered o).v4 || not (or_uncovered o).v6))
  unfolding needs is_some
  needs-some none = refl
  needs-some (some f) = refl

  contains-uncovered :
      (m : List (Text × Families)) (host : Text)
      → is_distinct (map_keys m) ≡ true
      → contains (uncovered is_ipv6 m) host ≡ needs (lookup host m)
  unfolding uncovered contains lookup needs is_distinct map_keys
  contains-uncovered [] host h = refl
  contains-uncovered ((j, f) ∷ m) host h =
      let rest = contains-uncovered m host (ground (arith, h)) in
      elim (Bool-cases (j == host)) [
        | inl e ↦
            let gone : contains (map_keys m) host ≡ false =
              ap (contains (map_keys m)) (sym ((==_iff j host).0 e)) ∙ ground (arith, h) in
            rw e (ground (arith, e, rest, ap needs (lookup-missing host m gone)))
        | inr e ↦ rw e (ground (arith, e, rest))
      ]

  -- One record of the loop over the families.
  abbrev noted : Nameserver → List (Text × Families) → List (Text × Families)
  noted n m = insert n.hostname (cover is_ipv6 n.ip (families_of n.hostname m)) m

  families_of-noted :
      (n : Nameserver) (m : List (Text × Families)) (host : Text)
      → families_of host (noted n m) ≡ (
          if n.hostname == host
          then cover is_ipv6 n.ip (families_of host m)
          else families_of host m)
  families_of-noted n m host =
      ap or_uncovered
        (lookup-insert n.hostname host (cover is_ipv6 n.ip (families_of n.hostname m)) m)
      ∙ elim (Bool-cases (n.hostname == host)) [
        | inl e ↦ rw (e, (==_iff n.hostname host).0 e) refl
        | inr e ↦ rw e refl
      ]

  families-lem :
      (ns : List Nameserver) (m : List (Text × Families)) (host : Text)
      → is_distinct (map_keys m) ≡ true
      → (is_distinct (map_keys (families is_ipv6 m ns)) ≡ true)
        × (contains (map_keys (families is_ipv6 m ns)) host
            ≡ (contains (map_keys m) host || any (of_host host) ns))
        × ((families_of host (families is_ipv6 m ns)).v4
            ≡ ((families_of host m).v4 || any (gives_v4 host) ns))
        × ((families_of host (families is_ipv6 m ns)).v6
            ≡ ((families_of host m).v6 || any (gives_v6 host) ns))
  unfolding families
  families-lem [] m host d = (d, ground arith, ground arith, ground arith)
  families-lem (n ∷ ns) m host d =
      let f = cover is_ipv6 n.ip (families_of n.hostname m) in
      let (d', h', a', b') =
        families-lem ns (noted n m) host (is_distinct-map_keys-insert n.hostname f m d) in
      (
        d',
        h' ∙ ground (arith, contains-map_keys-insert n.hostname host f m),
        a' ∙ ground (arith, ap (λ (g : Families). g.v4) (families_of-noted n m host)),
        b' ∙ ground (arith, ap (λ (g : Families). g.v6) (families_of-noted n m host)),
      )

  -- A host is looked up besides exactly if it has a record and there is an address family that none
  -- of its records has an address of.
  pub contains-hosts_needing_augmentation :
      (ns : List Nameserver) (host : Text)
      → contains (hosts_needing_augmentation is_ipv6 ns) host
        ≡ (any (of_host host) ns && (not (any (gives_v4 host) ns) || not (any (gives_v6 host) ns)))
  unfolding hosts_needing_augmentation map_keys is_distinct contains lookup
  contains-hosts_needing_augmentation ns host =
      let m = families is_ipv6 [] ns in
      let (d, h, a, b) = families-lem ns [] host refl in
      contains-uncovered m host d
      ∙ needs-some (lookup host m)
      ∙ ground (arith, contains-hosts m host, h, a, b)
