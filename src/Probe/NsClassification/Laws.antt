-- ===== src/Probe/NsClassification/Laws.antt =====
-- The sets of names that the classification compares, and the class of a name.
use dnshealth_exporter.Prelude.{
  ℕ, Bool, true, false, ◌&&◌, ◌||◌, some, List, [], ◌∷◌, ◌≡◌, refl, ap, ◌∙◌, arith, Bool-cases, inl,
  inr, All, if◌then◌else◌,
}
use dnshealth_exporter.Dns.{Net, History}
use dnshealth_exporter.Resolver.{Nameserver}
use dnshealth_exporter.Resolver.Delegation.{DelegationResult}
use dnshealth_exporter.Probe.{ProbeResult}
use dnshealth_exporter.Text.{Text, bytes, lookup, ◌==◌, contains, text_ltb, insert_sorted, sort}
use dnshealth_exporter.Text.Maps.{contains-append, is_distinct-snoc, is_distinct}
use dnshealth_exporter.Text.Equality.{==_iff}
use dnshealth_exporter.Probe.NsClassification.{
  add_name, add_names, union_sorted, classify_host, classify_all, parent_names, parent_ips,
  self_names, probe_ns_classification,
}

-- The order of texts is total.
text_ltb-total : (a b : Text) → text_ltb a b ≡ false → (a == b) ≡ false → text_ltb b a ≡ true
unfolding text_ltb ◌==◌
text_ltb-total [] [] h k = ground (arith, k)
text_ltb-total [] (y ∷ b) h k = ground (arith, h)
text_ltb-total (x ∷ a) [] h k = refl
text_ltb-total (x ∷ a) (y ∷ b) h k = ground (arith, text_ltb-total a b, h, k)

-- In strictly ascending order.
abbrev pub below_head : Text → List Text → Bool
below_head t [] = true
below_head t (x ∷ xs) = text_ltb t x

unfoldable pub is_ascending : List Text → Bool
is_ascending [] = true
is_ascending (t ∷ ts) = below_head t ts && is_ascending ts

contains-insert_sorted :
    (x t : Text) (ts : List Text) → contains (insert_sorted x ts) t ≡ (x == t || contains ts t)
unfolding insert_sorted contains
contains-insert_sorted x t [] = refl
contains-insert_sorted x t (y ∷ ts) = ground (arith, contains-insert_sorted x t ts)

contains-sort : (ts : List Text) (t : Text) → contains (sort ts) t ≡ contains ts t
unfolding sort contains
contains-sort [] t = refl
contains-sort (x ∷ ts) t =
    contains-insert_sorted x t (sort ts) ∙ ap (λ b. x == t || b) (contains-sort ts t)

below_head-insert_sorted :
    (y x : Text) (ts : List Text)
    → text_ltb y x ≡ true
    → below_head y ts ≡ true
    → below_head y (insert_sorted x ts) ≡ true
unfolding insert_sorted
below_head-insert_sorted y x [] h k = h
below_head-insert_sorted y x (z ∷ ts) h k = ground (arith, h, k)

is_ascending-insert_sorted :
    (x : Text) (ts : List Text)
    → is_ascending ts ≡ true
    → contains ts x ≡ false
    → is_ascending (insert_sorted x ts) ≡ true
unfolding insert_sorted is_ascending contains
is_ascending-insert_sorted x [] h k = refl
is_ascending-insert_sorted x (y ∷ ts) h k = elim (Bool-cases (text_ltb y x)) [
  | inl e ↦
      rw e
        (ground (arith, h, k, is_ascending-insert_sorted x ts, below_head-insert_sorted y x ts e))
  | inr e ↦ rw e (ground (arith, h, k, text_ltb-total y x e))
]

is_ascending-sort : (ts : List Text) → is_distinct ts ≡ true → is_ascending (sort ts) ≡ true
unfolding sort is_distinct is_ascending
is_ascending-sort [] h = refl
is_ascending-sort (x ∷ ts) h =
    is_ascending-insert_sorted x (sort ts) (is_ascending-sort ts (ground (arith, h)))
      (contains-sort ts x ∙ ground (arith, h))

add_name-lem :
    (set : List Text) (x : Text)
    → is_distinct set ≡ true
    → (is_distinct (add_name set x) ≡ true)
      × ((t : Text) → contains (add_name set x) t ≡ (contains set t || x == t))
unfolding add_name contains
add_name-lem set x h = elim (Bool-cases (contains set x)) [
  | inl e ↦ rw e (h, λ t. ground (arith, e, ==_iff x t))
  | inr e ↦ rw e (is_distinct-snoc set x h e, λ t. contains-append set (x ∷ []) t ∙ ground arith)
]

add_names-lem :
    (ts set : List Text)
    → is_distinct set ≡ true
    → (is_distinct (add_names set ts) ≡ true)
      × ((t : Text) → contains (add_names set ts) t ≡ (contains set t || contains ts t))
unfolding add_names contains
add_names-lem [] set h = (h, λ t. ground arith)
add_names-lem (x ∷ ts) set h =
    let (d, one) = add_name-lem set x h in
    let (d', more) = add_names-lem ts (add_name set x) d in
    (d', λ t. more t ∙ ground (arith, one t))

-- The hosts that are classified stand in strictly ascending order, so that none comes twice, and
-- they are those that the parent or the servers themselves name.
pub union_sorted-ascending :
    (a b : List Text)
    → (is_ascending (union_sorted a b) ≡ true)
      × ((t : Text) → contains (union_sorted a b) t ≡ (contains a t || contains b t))
unfolding union_sorted is_distinct contains
union_sorted-ascending a b =
    let (d, one) = add_names-lem a [] refl in
    let (d', more) = add_names-lem b (add_names [] a) d in
    (
      is_ascending-sort (add_names (add_names [] a) b) d',
      λ t. contains-sort (add_names (add_names [] a) b) t ∙ more t ∙ ground (arith, one t),
    )

-- The class of a host by whether the parent and the servers themselves name it.
abbrev class_of : (by_parent by_servers : Bool) → Text
class_of true true = bytes "both"
class_of true false = bytes "parent-only"
class_of false by_servers = bytes "self-only"

abbrev pub hosts_of : List ProbeResult → List Text
hosts_of [] = []
hosts_of (r ∷ rs) = r.nameserver ∷ hosts_of rs

-- Each result carries the class of the host that it names.
abbrev pub AllClassified : List Text → List Text → List ProbeResult → Type 0
AllClassified parent_set self_set = All (λ r.
    lookup (bytes "classification") r.labels
    ≡ some (class_of (contains parent_set r.nameserver) (contains self_set r.nameserver)))

classify_host-class_of :
    (host : Text) (parent_set self_set : List Text)
    → classify_host host parent_set self_set
      ≡ class_of (contains parent_set host) (contains self_set host)
unfolding classify_host
classify_host-class_of host parent_set self_set =
    by_sets (contains parent_set host) (contains self_set host)
  where
    by_sets :
        (p s : Bool)
        → (if p && s then bytes "both" else if p then bytes "parent-only" else bytes "self-only")
          ≡ class_of p s
    by_sets true true = refl
    by_sets true false = refl
    by_sets false s = refl

module _ (net : Net) (timeout : ℕ) (zone : Text) where
  classify_all-AllClassified :
      (parent_set self_set : List Text) (ips : List (Text × Text)) (hosts : List Text) (h : History)
      → AllClassified parent_set self_set
          (classify_all net timeout zone parent_set self_set ips hosts h).0
  unfolding classify_all lookup ◌==◌
  classify_all-AllClassified parent_set self_set ips [] h = tt
  classify_all-AllClassified parent_set self_set ips (host ∷ hosts) h = (
    ap some (classify_host-class_of host parent_set self_set),
    classify_all-AllClassified parent_set self_set ips hosts _,
  )

  classify_all-hosts :
      (parent_set self_set : List Text) (ips : List (Text × Text)) (hosts : List Text) (h : History)
      → hosts_of (classify_all net timeout zone parent_set self_set ips hosts h).0 ≡ hosts
  unfolding classify_all
  classify_all-hosts parent_set self_set ips [] h = refl
  classify_all-hosts parent_set self_set ips (host ∷ hosts) h =
      ap (λ (hs : List Text). host ∷ hs) (classify_all-hosts parent_set self_set ips hosts _)

  -- The hosts of the results stand in strictly ascending order, so that none is reported twice, and
  -- they are exactly those that the parent or the servers themselves name; the class of each is
  -- "both" where both name it, "parent-only" where only the parent does, and "self-only" where the
  -- parent does not.
  pub probe_ns_classification-lem :
      (nameservers : List Nameserver) (d : DelegationResult) (h : History)
      → let parent_set = parent_names net timeout zone d.ns_records in
        let self_set = (self_names net timeout zone [] nameservers h).0 in
        let results = (probe_ns_classification net timeout zone nameservers d h).0 in
        (is_ascending (hosts_of results) ≡ true)
        × ((t : Text)
            → contains (hosts_of results) t ≡ (contains parent_set t || contains self_set t))
        × AllClassified parent_set self_set results
  unfolding probe_ns_classification
  probe_ns_classification-lem nameservers d h =
      let parent_set = parent_names net timeout zone d.ns_records in
      let (self_set, h1) = self_names net timeout zone [] nameservers h in
      let ips = parent_ips net timeout zone [] d.ns_records in
      let hosts = union_sorted parent_set self_set in
      let (ascending, members) = union_sorted-ascending parent_set self_set in
      let same = classify_all-hosts parent_set self_set ips hosts h1 in
      (
        ap is_ascending same ∙ ascending,
        λ t. ap (λ hs. contains hs t) same ∙ members t,
        classify_all-AllClassified parent_set self_set ips hosts h1,
      )
