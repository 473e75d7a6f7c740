-- ===== src/Resolver/Delegation/Addresses.antt =====
-- The addresses that the additional section of a referral gives for a host.
use dnshealth_exporter.Prelude.{
  Bool, true, false, not, ◌&&◌, ◌||◌, List, [], ◌∷◌, ◌++◌, ◌≡◌, inl, inr, refl, sym, ap, ◌∙◌, arith,
  if◌then◌else◌, is_nil, any, Bool-cases,
}
use dnshealth_exporter.Text.{Text, ◌==◌, contains}
use dnshealth_exporter.Text.Equality.{==_iff, lookup-insert}
use dnshealth_exporter.Text.Maps.{contains-append, is_distinct-snoc, is_distinct}
use dnshealth_exporter.Dns.{Rr, a, aaaa, ns, mx, txt, cname, soa, other}
use dnshealth_exporter.Resolver.Delegation.{or_no_ips, addresses, add_address, glue_map}

-- An address record of the host, of whatever address and with the given one.
abbrev pub is_glue_of : Text → Rr → Bool
is_glue_of host (a o ip) = o == host
is_glue_of host (aaaa o ip) = o == host
is_glue_of host _ = false

abbrev pub gives_address : Text → Text → Rr → Bool
gives_address host ip (a o i) = o == host && i == ip
gives_address host ip (aaaa o i) = o == host && i == ip
gives_address host ip _ = false

is_nil-snoc : (ts : List Text) (t : Text) → is_nil (ts ++ t ∷ []) ≡ false
is_nil-snoc [] t = refl
is_nil-snoc (x ∷ ts) t = refl

-- The addresses of a host with one more, unless it is there.
abbrev joined : List Text → Text → List Text
joined ips ip = if contains ips ip then ips else ips ++ ip ∷ []

addresses-add_address :
    (m : List (Text × List Text)) (name ip host : Text)
    → addresses host (add_address m name ip)
      ≡ (if name == host then joined (addresses host m) ip else addresses host m)
unfolding add_address addresses
addresses-add_address m name ip host = elim (Bool-cases (contains (addresses name m) ip)) [
  | inl e ↦ rw e (elim (Bool-cases (name == host)) [
    | inl k ↦ rw (k, sym ((==_iff name host).0 k), e) refl
    | inr k ↦ rw k refl
  ])
  | inr e ↦ rw e (
      ap or_no_ips (lookup-insert name host (addresses name m ++ ip ∷ []) m)
      ∙ elim (Bool-cases (name == host)) [
        | inl k ↦ rw (k, sym ((==_iff name host).0 k), e) refl
        | inr k ↦ rw k refl
      ])
]

-- What is known of the addresses of a host: none comes twice, and which they are.
unfoldable pub Holds : Text → List Rr → List (Text × List Text) → List (Text × List Text) → Type 0
Holds host rrs m n =
    (is_distinct (addresses host n) ≡ true)
    × ((ip : Text)
        → contains (addresses host n) ip
          ≡ (contains (addresses host m) ip || any (gives_address host ip) rrs))
    × (is_nil (addresses host n) ≡ (is_nil (addresses host m) && not (any (is_glue_of host) rrs)))

nonempty : (ips : List Text) (ip : Text) → contains ips ip ≡ true → is_nil ips ≡ false
unfolding contains
nonempty [] ip h = cc
nonempty (x ∷ ips) ip h = refl

joined-lem :
    (b : Bool) (ips : List Text) (ip : Text)
    → is_distinct ips ≡ true
    → (is_distinct (if b then joined ips ip else ips) ≡ true)
      × ((i : Text)
          → contains (if b then joined ips ip else ips) i ≡ (contains ips i || b && ip == i))
      × (is_nil (if b then joined ips ip else ips) ≡ (is_nil ips && not b))
unfolding contains
joined-lem false ips ip h = (h, λ i. ground arith, ground arith)
joined-lem true ips ip h = elim (Bool-cases (contains ips ip)) [
  | inl e ↦ rw e (h, λ i. ground (arith, e, ==_iff ip i), ground (arith, nonempty ips ip e))
  | inr e ↦ rw e (
    is_distinct-snoc ips ip h e,
    λ i. contains-append ips (ip ∷ []) i ∙ ground arith,
    is_nil-snoc ips ip ∙ ground arith,
  )
]

add_address-Holds :
    (host o i : Text) (rr : Rr) (m : List (Text × List Text))
    → ((h : Text) → is_glue_of h rr ≡ (o == h))
    → ((h ip : Text) → gives_address h ip rr ≡ (o == h && i == ip))
    → is_distinct (addresses host m) ≡ true
    → Holds host (rr ∷ []) m (add_address m o i)
unfolding Holds
add_address-Holds host o i rr m named given d =
    let (x, y, z) = joined-lem (o == host) (addresses host m) i d in
    let step = addresses-add_address m o i host in
    (
      ap is_distinct step ∙ x,
      λ ip. ap (λ l. contains l ip) step ∙ y ip ∙ ground (arith, given host ip),
      ap is_nil step ∙ z ∙ ground (arith, named host),
    )

Holds-trans :
    (host : Text) (rr : Rr) (rrs : List Rr) (m n k : List (Text × List Text))
    → Holds host (rr ∷ []) m n
    → Holds host rrs n k
    → Holds host (rr ∷ rrs) m k
unfolding Holds
Holds-trans host rr rrs m n k (x, y, z) (x', y', z') =
    (x', λ ip. y' ip ∙ ground (arith, y ip), z' ∙ ground (arith, z))

pub glue_map-Holds :
    (host : Text) (rrs : List Rr) (m : List (Text × List Text))
    → is_distinct (addresses host m) ≡ true
    → Holds host rrs m (glue_map m rrs)
unfolding glue_map Holds
glue_map-Holds host [] m d = (d, λ ip. ground arith, ground arith)
glue_map-Holds host (a o i ∷ rrs) m d =
    let first = add_address-Holds host o i (a o i) m (λ h. refl) (λ h ip. refl) d in
    Holds-trans host (a o i) rrs m _ _ first (glue_map-Holds host rrs (add_address m o i) first.0)
glue_map-Holds host (aaaa o i ∷ rrs) m d =
    let first = add_address-Holds host o i (aaaa o i) m (λ h. refl) (λ h ip. refl) d in
    Holds-trans host (aaaa o i) rrs m _ _ first
      (glue_map-Holds host rrs (add_address m o i) first.0)
glue_map-Holds host (ns o t ∷ rrs) m d = glue_map-Holds host rrs m d
glue_map-Holds host (mx o t p ∷ rrs) m d = glue_map-Holds host rrs m d
glue_map-Holds host (txt o ss ∷ rrs) m d = glue_map-Holds host rrs m d
glue_map-Holds host (cname o t ∷ rrs) m d = glue_map-Holds host rrs m d
glue_map-Holds host (soa o f ∷ rrs) m d = glue_map-Holds host rrs m d
glue_map-Holds host (other o ∷ rrs) m d = glue_map-Holds host rrs m d
