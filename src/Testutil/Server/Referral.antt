-- ===== src/Testutil/Server/Referral.antt =====
-- findReferral against the names that enclose the question.
use dnshealth_exporter.Prelude.{
  ℕ, ◌≡◌, refl, ap, List, [], ◌∷◌, eqb, if◌then◌else◌, Bool-cases, inl, inr,
}
use dnshealth_exporter.Text.{Text, split, join}
use dnshealth_exporter.Text.Splitting.{split-ne-nil, join-split}
use dnshealth_exporter.Dns.{Rr, type_ns}
use dnshealth_exporter.Testutil.Server.{matched, referral_or, at_parent, find_referral}

-- A name and the further ones, up to the empty name.
abbrev pub unless_empty : Text → List Text → List Text
unless_empty [] further = []
unless_empty (c ∷ cs) further = (c ∷ cs) ∷ further

-- The names other than the root that properly enclose a name with the given labels, the nearest
-- first. The name of the root has no label, and the loop ends before it.
abbrev pub enclosing : List Text → List Text
enclosing [] = []
enclosing (label ∷ labels) = unless_empty (join (b'.' ∷ []) labels) (enclosing labels)

-- The NS records of the first of some names that has any, with their glue.
abbrev pub nearest : List Rr → List Text → List Rr × List Rr
nearest records [] = ([], [])
nearest records (name ∷ names) =
    referral_or (nearest records names) records (matched name type_ns records)

at_parent-nearest :
    (records : List Rr) (name : Text) (names : List Text)
    → at_parent (nearest records names) records name ≡ nearest records (unless_empty name names)
at_parent-nearest records [] names = refl
at_parent-nearest records (c ∷ cs) names = refl

enclosing-cons_head :
    (c : ℕ) (s : Text)
    → enclosing (split b'.' (c ∷ s))
      ≡ (if eqb c b'.' then unless_empty s (enclosing (split b'.' s)) else enclosing (split b'.' s))
unfolding split
enclosing-cons_head c s = elim (Bool-cases (eqb c b'.')) [
  | inl e ↦ rw e (ap (λ p. unless_empty p (enclosing (split b'.' s))) (join-split b'.' s))
  | inr e ↦ let (p, ps, h) = split-ne-nil b'.' s in rw (e, h) refl
]

-- For every name findReferral returns the NS records of the nearest properly enclosing name, the root
-- excepted, that the server has NS records for, with the A and AAAA records of their targets, and
-- nothing where there is none, even where the server has NS records of the root; the enclosing names
-- are the joins of the tails of the name's labels as far as these are not empty.
pub find_referral-nearest :
    (records : List Rr) (qname : Text)
    → find_referral records qname ≡ nearest records (enclosing (split b'.' qname))
unfolding find_referral split join
find_referral-nearest records [] = refl
find_referral-nearest records (c ∷ cs) = elim (Bool-cases (eqb c b'.')) [
  | inl e ↦
      rw (enclosing-cons_head c cs, e, find_referral-nearest records cs)
        (at_parent-nearest records cs (enclosing (split b'.' cs)))
  | inr e ↦ rw (enclosing-cons_head c cs, e) (find_referral-nearest records cs)
]
