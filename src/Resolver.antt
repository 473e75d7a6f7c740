-- ===== src/Resolver.antt =====
-- prober/prober.go: the delegation walk and the resolution of host names. Each walk starts at
-- RootServers[0], which is never missing: main.go assigns no empty list.
pub mod Delegation
pub mod Hostnames
pub mod Cname
use dnshealth_exporter.Prelude.{
  ℕ, zero, suc, Bool, true, false, not, ◌&&◌, Option, none, some, List, [], ◌∷◌, ◌++◌, ◌>>=◌,
  return, if◌then◌else◌, is_nil,
}
use dnshealth_exporter.Text.{Text, lookup, insert, ◌==◌, contains}
use dnshealth_exporter.Dns.{
  Net, Rr, a, aaaa, ns, mx, txt, cname, soa, other, Reply, Outcome, M, iterative, exchange_context,
  Qtype, type_a, type_aaaa, type_ns, owner,
}

pub record Nameserver : Type 0 where
  pub hostname : Text
  pub ip : Text

-- The targets of the NS records of a section, in order.
unfoldable pub ns_targets : List Rr → List Text
ns_targets [] = []
ns_targets (ns o t ∷ rrs) = t ∷ ns_targets rrs
ns_targets (_ ∷ rrs) = ns_targets rrs

-- Referral glue: an address for each host, an A record before an AAAA record.
abbrev pub add_glue : List (Text × Text) → Rr → List (Text × Text)
add_glue m (a o ip) = insert o ip m
add_glue m (aaaa o ip) = elim (lookup o m) [ none ↦ insert o ip m | some _ ↦ m ]
add_glue m _ = m

unfoldable pub glue_from : List (Text × Text) → List Rr → List (Text × Text)
unfolding lookup insert
glue_from m [] = m
glue_from m (rr ∷ rrs) = glue_from (add_glue m rr) rrs

unfoldable pub referral_glue : List Rr → List (Text × Text)
unfolding glue_from
referral_glue = glue_from []

-- The addresses of one family in an answer.
unfoldable pub family_answer : Qtype → List Rr → List Text
family_answer type_a (a o ip ∷ rrs) = ip ∷ family_answer type_a rrs
family_answer type_aaaa (aaaa o ip ∷ rrs) = ip ∷ family_answer type_aaaa rrs
family_answer q [] = []
family_answer q (_ ∷ rrs) = family_answer q rrs

module _ (net : Net) where
  -- The address of the first host that has glue; empty if none has.
  unfoldable pub first_glued : List (Text × Text) → List Text → Text
  unfolding lookup
  first_glued glue [] = []
  first_glued glue (t ∷ ts) = elim (lookup t glue) [
    | none ↦ first_glued glue ts
    | some ip ↦ net.resolve_address ip
  ]
