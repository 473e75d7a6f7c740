-- ===== src/Resolver/Delegation/Entries.antt =====
-- The name servers that a referral gives.
use dnshealth_exporter.Prelude.{
  ◌+◌, Bool, true, false, not, ◌&&◌, ◌||◌, List, [], ◌∷◌, ◌++◌, ◌≡◌, inl, inr, refl, sym, ap, ◌∙◌,
  arith, if◌then◌else◌, is_nil, any, count, Bool-cases,
}
use dnshealth_exporter.Text.{Text, ◌==◌, contains, lookup}
use dnshealth_exporter.Text.Equality.{==_iff, ==_refl}
use dnshealth_exporter.Text.Maps.{is_distinct}
use dnshealth_exporter.Dns.{Rr}
use dnshealth_exporter.Resolver.{Nameserver, ns_targets}
use dnshealth_exporter.Resolver.Delegation.{
  addresses, glue_map, entries, ns_entries, all_ns_entries, all_glue_entries, extract_delegation,
}
use dnshealth_exporter.Resolver.Delegation.Addresses.{
  is_glue_of, gives_address, Holds, glue_map-Holds,
}

abbrev pub is_entry : Text → Text → Nameserver → Bool
is_entry host ip n = n.hostname == host && n.ip == ip

-- A list in which no text comes twice has a text once if it has it.
count-distinct :
    (ts : List Text) (t : Text)
    → is_distinct ts ≡ true
    → count (λ x. x == t) ts ≡ (if contains ts t then 1 else 0)
unfolding is_distinct contains
count-distinct [] t h = refl
count-distinct (x ∷ ts) t h =
    let rest = count-distinct ts t (ground (arith, h)) in
    elim (Bool-cases (x == t)) [
      | inl e ↦
          let gone : contains ts t ≡ false =
            ap (contains ts) (sym ((==_iff x t).0 e)) ∙ ground (arith, h) in
          rw e (ground (arith, rest, gone))
      | inr e ↦ rw e (ground (arith, rest))
    ]

count-append :
    (p : Nameserver → Bool) (xs ys : List Nameserver) → count p (xs ++ ys) ≡ count p xs + count p ys
count-append p [] ys = omega arith
count-append p (x ∷ xs) ys = omega (arith, count-append p xs ys)

count-entries :
    (host ip t : Text) (ips : List Text)
    → count (is_entry host ip) (entries t ips) ≡ (if t == host then count (λ x. x == ip) ips else 0)
unfolding entries
count-entries host ip t [] = ground arith
count-entries host ip t (i ∷ ips) = ground (arith, count-entries host ip t ips)

nil-eq : (ip : Text) → ([] == ip) ≡ is_nil ip
unfolding ◌==◌
nil-eq [] = refl
nil-eq (c ∷ ip) = refl

-- An entry of a host that is listed, in the glue and in the records.
in_glue : List Text → Text → Bool
in_glue ips ip = contains ips ip

in_records : List Text → Text → Bool
unfolding contains
in_records ips ip = contains ips ip || is_nil ip && is_nil ips

count-glue :
    (m : List (Text × List Text)) (host ip t : Text)
    → is_distinct (addresses host m) ≡ true
    → count (is_entry host ip) (entries t (addresses t m))
      ≡ (if t == host && in_glue (addresses host m) ip then 1 else 0)
unfolding in_glue
count-glue m host ip t d = count-entries host ip t (addresses t m) ∙ elim (Bool-cases (t == host)) [
  | inl e ↦ rw (e, (==_iff t host).0 e) (count-distinct (addresses host m) ip d)
  | inr e ↦ rw e refl
]

count-ns_entries :
    (host ip t : Text) (ips : List Text)
    → is_distinct ips ≡ true
    → count (is_entry host ip) (ns_entries t ips)
      ≡ (if t == host && in_records ips ip then 1 else 0)
unfolding in_records is_distinct contains
count-ns_entries host ip t [] d = ground (arith, nil-eq ip)
count-ns_entries host ip t (i ∷ ips) d =
    count-entries host ip t (i ∷ ips) ∙ ground (arith, count-distinct (i ∷ ips) ip d)

count-records :
    (m : List (Text × List Text)) (host ip t : Text)
    → is_distinct (addresses host m) ≡ true
    → count (is_entry host ip) (ns_entries t (addresses t m))
      ≡ (if t == host && in_records (addresses host m) ip then 1 else 0)
count-records m host ip t d = elim (Bool-cases (t == host)) [
  | inl e ↦
      ap (λ u. count (is_entry host ip) (ns_entries u (addresses u m))) ((==_iff t host).0 e)
      ∙ count-ns_entries host ip host (addresses host m) d
      ∙ rw (e, ==_refl host) refl
  | inr e ↦ rw e (count-other t (addresses t m) e)
]
  where
    count-other :
        (u : Text) (ips : List Text)
        → (u == host) ≡ false
        → count (is_entry host ip) (ns_entries u ips) ≡ 0
    count-other u [] e = rw e refl
    count-other u (i ∷ ips) e = count-entries host ip u (i ∷ ips) ∙ rw e refl

count-all_glue_entries :
    (m : List (Text × List Text)) (host ip : Text) (ts : List Text)
    → is_distinct (addresses host m) ≡ true
    → count (is_entry host ip) (all_glue_entries m ts)
      ≡ (if in_glue (addresses host m) ip then count (λ t. t == host) ts else 0)
unfolding all_glue_entries
count-all_glue_entries m host ip [] d = ground arith
count-all_glue_entries m host ip (t ∷ ts) d =
    count-append (is_entry host ip) (entries t (addresses t m)) (all_glue_entries m ts)
    ∙ ground (arith, count-glue m host ip t d, count-all_glue_entries m host ip ts d)

count-all_ns_entries :
    (m : List (Text × List Text)) (host ip : Text) (ts : List Text)
    → is_distinct (addresses host m) ≡ true
    → count (is_entry host ip) (all_ns_entries m ts)
      ≡ (if in_records (addresses host m) ip then count (λ t. t == host) ts else 0)
unfolding all_ns_entries
count-all_ns_entries m host ip [] d = ground arith
count-all_ns_entries m host ip (t ∷ ts) d =
    count-append (is_entry host ip) (ns_entries t (addresses t m)) (all_ns_entries m ts)
    ∙ ground (arith, count-records m host ip t d, count-all_ns_entries m host ip ts d)

-- For each host and address, the glue of a delegation has as many entries as the NS records have of
-- the host, if the additional section has an address record of the host with the address, however
-- often, and none otherwise. The records of the delegation have the same entries, and besides them
-- one with no address for each NS record of a host that has no address record at all.
pub extract_delegation-entries :
    (parent : Text) (ns_section extra : List Rr) (host ip : Text)
    → let d = extract_delegation parent ns_section extra in
      let listed = count (λ t. t == host) (ns_targets ns_section) in
      (count (is_entry host ip) d.glue ≡ (if any (gives_address host ip) extra then listed else 0))
      × (count (is_entry host ip) d.ns_records ≡ (
          if any (gives_address host ip) extra || is_nil ip && not (any (is_glue_of host) extra)
          then listed
          else 0))
unfolding extract_delegation Holds in_glue in_records is_distinct addresses lookup contains
extract_delegation-entries parent ns_section extra host ip =
    let m = glue_map [] extra in
    let ts = ns_targets ns_section in
    let (d, given, none_given) = glue_map-Holds host extra [] refl in
    (
      count-all_glue_entries m host ip ts d
          ∙ ap (λ b. if b then count (λ t. t == host) ts else 0) (given ip),
      count-all_ns_entries m host ip ts d ∙ ground (arith, given ip, none_given),
    )
