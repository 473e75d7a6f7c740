-- ===== src/Testutil/Server/Heads.antt =====
-- The first records of what a test server finds, and names that differ in length.
use dnshealth_exporter.Prelude.{
  suc, ◌<◌, ◌≤◌, ◌≡◌, refl, ap, true, false, ◌&&◌, List, [], ◌∷◌, eqb, arith, length, Bool-cases,
  inl, inr, &&-eq-true, ◌⊎◌,
}
use dnshealth_exporter.Text.{Text, ◌==◌, equal_fold, to_lower}
use dnshealth_exporter.Text.Equality.{==_iff, ==_refl}
use dnshealth_exporter.Dns.{Rr, a, aaaa, ns, mx, txt, cname, soa, other, owner, type_ns}
use dnshealth_exporter.Resolver.{ns_targets}
use dnshealth_exporter.Testutil.Server.{has_type, matched, at_parent, referral_or, find_referral}

pub matched-head :
    (qname : Text) (records : List Rr) (n : Rr) (more : List Rr)
    → matched qname type_ns records ≡ n ∷ more
    → (owner n == qname && has_type type_ns n) ≡ true
unfolding matched
matched-head qname [] n more e = cc
matched-head qname (rr ∷ rrs) n more e =
    elim (Bool-cases (owner rr == qname && has_type type_ns rr)) [
      | inl h ↦ ground (arith, e, h)
      | inr h ↦ matched-head qname rrs n more (rw h at e)
    ]

pub ns_targets-head :
    (n : Rr) (more : List Rr)
    → has_type type_ns n ≡ true
    → (t : Text) × (ns_targets (n ∷ more) ≡ t ∷ ns_targets more)
unfolding ns_targets
ns_targets-head (ns o t) more h = (t, refl)
ns_targets-head (a o ip) more h = cc
ns_targets-head (aaaa o ip) more h = cc
ns_targets-head (mx o t p) more h = cc
ns_targets-head (txt o ss) more h = cc
ns_targets-head (cname o t) more h = cc
ns_targets-head (soa o f) more h = cc
ns_targets-head (other o) more h = cc

referral_or-cases :
    (rest : List Rr × List Rr) (records found : List Rr) (n : Rr) (more extra : List Rr)
    → referral_or rest records found ≡ (n ∷ more, extra)
    → (found ≡ n ∷ more) ⊎ (rest ≡ (n ∷ more, extra))
referral_or-cases rest records [] n more extra e = inr e
referral_or-cases rest records (m ∷ ms) n more extra e = inl (ap (λ (p : List Rr × List Rr). p.0) e)

at_parent-head :
    (rest : List Rr × List Rr) (records : List Rr) (name : Text) (n : Rr) (more extra : List Rr)
    → (rest ≡ (n ∷ more, extra) → (length (owner n) ≤ length name) × (has_type type_ns n ≡ true))
    → at_parent rest records name ≡ (n ∷ more, extra)
    → (length (owner n) ≤ length name) × (has_type type_ns n ≡ true)
at_parent-head rest records [] n more extra later e = cc
at_parent-head rest records (c ∷ cs) n more extra later e =
    elim (referral_or-cases rest records (matched (c ∷ cs) type_ns records) n more extra e) [
      | inl m ↦
          let (o, t) =
            &&-eq-true (owner n == c ∷ cs) (has_type type_ns n)
              (matched-head (c ∷ cs) records n more m) in
          (omega (arith, ap length ((==_iff (owner n) (c ∷ cs)).0 o)), t)
      | inr r ↦ later r
    ]

-- What findReferral returns is headed by an NS record of a shorter name.
pub find_referral-head :
    (records : List Rr) (qname : Text) (n : Rr) (more extra : List Rr)
    → find_referral records qname ≡ (n ∷ more, extra)
    → (length (owner n) < length qname) × (has_type type_ns n ≡ true)
unfolding find_referral
find_referral-head records [] n more extra e = cc
find_referral-head records (c ∷ cs) n more extra e =
    let ih : find_referral records cs ≡ (n ∷ more, extra)
        → (length (owner n) ≤ length cs) × (has_type type_ns n ≡ true) =
      λ r. let (l, t) = find_referral-head records cs n more extra r in (omega arith, t) in
    elim (Bool-cases (eqb c b'.')) [
      | inl h ↦
          let (l, t) =
            at_parent-head (find_referral records cs) records cs n more extra ih (rw h at e) in
          (omega arith, t)
      | inr h ↦ let (l, t) = ih (rw h at e) in (omega arith, t)
    ]

length-to_lower : (t : Text) → length (to_lower t) ≡ length t
unfolding to_lower
length-to_lower [] = refl
length-to_lower (c ∷ cs) = ap suc (length-to_lower cs)

pub equal_fold-shorter : (s t : Text) → length s < length t → equal_fold s t ≡ false
unfolding equal_fold
equal_fold-shorter s t l = elim (Bool-cases (to_lower s == to_lower t)) [
  | inl e ↦ absurd (
      omega (
        arith,
        l,
        length-to_lower s,
        length-to_lower t,
        ap length ((==_iff (to_lower s) (to_lower t)).0 e),
      ))
  | inr e ↦ e
]

pub equal_fold-same : (s t : Text) → (s == t) ≡ true → equal_fold s t ≡ true
unfolding equal_fold
equal_fold-same s t e = rw ((==_iff s t).0 e) (==_refl (to_lower t))
