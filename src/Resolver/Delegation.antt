-- ===== src/Resolver/Delegation.antt =====
-- prober/prober.go: WalkDelegation and extractDelegation.
pub mod Bounds
pub mod Addresses
pub mod Entries
pub mod Chains
use dnshealth_exporter.Prelude.{
  ℕ, zero, suc, Bool, true, false, not, ◌&&◌, Option, none, some, List, [], ◌∷◌, ◌++◌, ◌>>=◌,
  return, if◌then◌else◌, is_nil, map,
}
use dnshealth_exporter.Text.{Text, lookup, insert, contains, equal_fold}
use dnshealth_exporter.Dns.{
  Net, Rr, a, aaaa, ns, Reply, Outcome, M, iterative, question, exchange_context, Qtype, type_a,
  type_aaaa, type_ns, owner,
}
use dnshealth_exporter.Dns.Errors.{Error, plain, wrapped, Result, ok, err}
use dnshealth_exporter.Resolver.{Nameserver, ns_targets, referral_glue, first_glued, family_answer}

pub record DelegationResult : Type 0 where
  pub parent_server : Text
  pub ns_records : List Nameserver
  pub glue : List Nameserver

-- glueMap[name], which is empty for a name that is not there.
abbrev pub or_no_ips : Option (List Text) → List Text
or_no_ips none = []
or_no_ips (some ips) = ips

unfoldable pub addresses : Text → List (Text × List Text) → List Text
unfolding lookup
addresses name m = or_no_ips (lookup name m)

unfoldable pub add_address : List (Text × List Text) → Text → Text → List (Text × List Text)
unfolding addresses contains insert
add_address m name ip =
    if contains (addresses name m) ip then m else insert name (addresses name m ++ ip ∷ []) m

unfoldable pub glue_map : List (Text × List Text) → List Rr → List (Text × List Text)
unfolding add_address
glue_map m [] = m
glue_map m (a o ip ∷ rrs) = glue_map (add_address m o ip) rrs
glue_map m (aaaa o ip ∷ rrs) = glue_map (add_address m o ip) rrs
glue_map m (_ ∷ rrs) = glue_map m rrs

-- One entry for each address of a host.
unfoldable pub entries : Text → List Text → List Nameserver
entries host [] = []
entries host (ip ∷ ips) = record { hostname = host; ip = ip } ∷ entries host ips

-- The entry with no address stands for a host that has to be resolved otherwise.
abbrev pub ns_entries : Text → List Text → List Nameserver
ns_entries host [] = record { hostname = host; ip = [] } ∷ []
ns_entries host (ip ∷ ips) = entries host (ip ∷ ips)

unfoldable pub all_ns_entries : List (Text × List Text) → List Text → List Nameserver
unfolding addresses entries
all_ns_entries m [] = []
all_ns_entries m (t ∷ ts) = ns_entries t (addresses t m) ++ all_ns_entries m ts

unfoldable pub all_glue_entries : List (Text × List Text) → List Text → List Nameserver
unfolding addresses entries
all_glue_entries m [] = []
all_glue_entries m (t ∷ ts) = entries t (addresses t m) ++ all_glue_entries m ts

unfoldable pub extract_delegation : Text → List Rr → List Rr → DelegationResult
unfolding glue_map all_ns_entries all_glue_entries ns_targets
extract_delegation parent ns_section extra = record {
  parent_server = parent;
  ns_records = all_ns_entries (glue_map [] extra) (ns_targets ns_section);
  glue = all_glue_entries (glue_map [] extra) (ns_targets ns_section);
}

-- The rounds of a walk.
abbrev pub max_depth : ℕ
max_depth = 10

module _ (net : Net) (timeout : ℕ) where
  -- The first address that gives a server which is not the empty text.
  first_server : List Text → Text
  first_server [] = []
  first_server (ip ∷ ips) = elim (net.resolve_address ip) [
    | [] ↦ first_server ips
    | c ∷ cs ↦ c ∷ cs
  ]

  -- The server that an answer to the question for the addresses of a referral's host gives.
  answered_server : Qtype → Outcome → Text
  unfolding family_answer first_server
  answered_server qtype (err e) = []
  answered_server qtype (ok r) = first_server (family_answer qtype r.answer)

  or_else : Text → M Text → M Text
  or_else [] m = m
  or_else (c ∷ cs) m = return (c ∷ cs)

  ask_family : Text → Text → Qtype → M Text
  unfolding exchange_context answered_server
  ask_family host server qtype = do
    outcome ← exchange_context net timeout (question host qtype) server
    return (answered_server qtype outcome)

  ask_families : Text → Text → M Text
  unfolding or_else ask_family
  ask_families host server = do
    from_a ← ask_family host server type_a
    or_else from_a (ask_family host server type_aaaa)

  next_server : Reply → Text → Text → List Text → M Text
  unfolding first_glued referral_glue or_else ask_families
  next_server r server host hosts =
      or_else (first_glued net (referral_glue r.additional) (host ∷ hosts))
        (ask_families host server)

  module _ (zone : Text) where
    unfoldable pub step_to :
        (Text → M (Result DelegationResult)) → Text → M (Result DelegationResult)
    step_to walk [] = return (err plain)
    step_to walk (c ∷ cs) = walk (c ∷ cs)

    follow_referral :
        (Text → M (Result DelegationResult))
        → Text
        → Reply
        → Text
        → List Text
        → M (Result DelegationResult)
    unfolding next_server step_to extract_delegation equal_fold
    follow_referral walk server r referral_zone [] = return (err plain)
    follow_referral walk server r referral_zone (host ∷ hosts) =
        if equal_fold referral_zone zone
        then return (ok (extract_delegation server r.authority r.additional))
        else do s ← next_server r server host hosts; step_to walk s

    follow_authority :
        (Text → M (Result DelegationResult)) → Text → Reply → List Rr → M (Result DelegationResult)
    unfolding follow_referral ns_targets
    follow_authority walk server r [] = return (err plain)
    follow_authority walk server r (rr ∷ rrs) =
        follow_referral walk server r (owner rr) (ns_targets (rr ∷ rrs))

    on_reply : (Text → M (Result DelegationResult)) → Text → Outcome → M (Result DelegationResult)
    unfolding follow_authority extract_delegation
    on_reply walk server (err e) = return (err (wrapped e))
    on_reply walk server (ok r) =
        if r.authoritative && not (is_nil r.answer)
        then return (ok (extract_delegation server r.answer r.additional))
        else follow_authority walk server r r.authority

    -- The loop, with the rounds that are left.
    walk_from : ℕ → Text → M (Result DelegationResult)
    unfolding on_reply exchange_context
    walk_from zero server = return (err plain)
    walk_from (suc left) server = do
      outcome ← exchange_context net timeout (iterative zone type_ns) server
      on_reply (walk_from left) server outcome

  unfoldable pub walk_delegation : Text → M (Result DelegationResult)
  unfolding walk_from
  walk_delegation zone = walk_from (net.fqdn zone) max_depth net.root_server
