-- ===== src/Resolver/Delegation/Bounds.antt =====
-- The queries of one delegation walk.
use dnshealth_exporter.Prelude.{
  ℕ, zero, suc, ◌+◌, ◌*◌, ◌≤◌, List, [], ◌∷◌, arith, ◌&&◌, not, is_nil, Bool-cases, inl, inr,
}
use dnshealth_exporter.Text.{Text, equal_fold}
use dnshealth_exporter.Dns.{
  Net, Outcome, M, History, Reply, Rr, iterative, type_ns, type_a, type_aaaa, Qtype, question,
  exchange_context, owner,
}
use dnshealth_exporter.Dns.Queries.{queries}
use dnshealth_exporter.Dns.Costs.{Costs, Costs-exchange_context}
use dnshealth_exporter.Dns.Errors.{Result, ok, err}
use dnshealth_exporter.Resolver.{ns_targets, first_glued, referral_glue}
use dnshealth_exporter.Resolver.Delegation.{
  DelegationResult, or_else, ask_family, ask_families, next_server, step_to, follow_referral,
  follow_authority, on_reply, walk_from, walk_delegation,
}

module _ (net : Net) (timeout : ℕ) where
  Costs-or_else : (b : ℕ) (s : Text) (m : M Text) → Costs b m → Costs b (or_else net timeout s m)
  unfolding or_else
  Costs-or_else b [] m k h = k h
  Costs-or_else b (c ∷ cs) m k h = omega arith

  Costs-ask_family :
      (host server : Text) (qtype : Qtype) → Costs 1 (ask_family net timeout host server qtype)
  unfolding ask_family
  Costs-ask_family host server qtype h =
      omega (arith, Costs-exchange_context net timeout (question host qtype) server h)

  Costs-ask_families : (host server : Text) → Costs 2 (ask_families net timeout host server)
  unfolding ask_families
  Costs-ask_families host server h =
      let x = ask_family net timeout host server type_a h in
      omega (
        arith,
        Costs-ask_family host server type_a h,
        Costs-or_else 1 x.0 (ask_family net timeout host server type_aaaa)
            (Costs-ask_family host server type_aaaa) x.1,
      )

  Costs-next_server :
      (r : Reply) (server host : Text) (hosts : List Text)
      → Costs 2 (next_server net timeout r server host hosts)
  unfolding next_server
  Costs-next_server r server host hosts h =
      Costs-or_else 2 (first_glued net (referral_glue r.additional) (host ∷ hosts))
        (ask_families net timeout host server) (Costs-ask_families host server) h

  module _ (zone : Text) (b : ℕ) (walk : Text → M (Result DelegationResult))
      (bounded : (t : Text) → Costs b (walk t)) where
    Costs-step_to : (s : Text) → Costs b (step_to net timeout zone walk s)
    unfolding step_to
    Costs-step_to [] h = omega arith
    Costs-step_to (c ∷ cs) h = bounded (c ∷ cs) h

    Costs-follow_referral :
        (server : Text) (r : Reply) (z : Text) (hosts : List Text)
        → Costs (2 + b) (follow_referral net timeout zone walk server r z hosts)
    unfolding follow_referral
    Costs-follow_referral server r z [] h = omega arith
    Costs-follow_referral server r z (host ∷ hosts) h =
        let x = next_server net timeout r server host hosts h in
        elim (Bool-cases (equal_fold z zone)) [
          | inl e ↦ rw e (omega arith)
          | inr e ↦
              rw e (omega (arith, Costs-next_server r server host hosts h, Costs-step_to x.0 x.1))
        ]

    Costs-follow_authority :
        (server : Text) (r : Reply) (rrs : List Rr)
        → Costs (2 + b) (follow_authority net timeout zone walk server r rrs)
    unfolding follow_authority
    Costs-follow_authority server r [] h = omega arith
    Costs-follow_authority server r (rr ∷ rrs) h =
        Costs-follow_referral server r (owner rr) (ns_targets (rr ∷ rrs)) h

    Costs-on_reply :
        (server : Text) (o : Outcome) → Costs (2 + b) (on_reply net timeout zone walk server o)
    unfolding on_reply
    Costs-on_reply server (err e) h = omega arith
    Costs-on_reply server (ok r) h = elim (Bool-cases (r.authoritative && not (is_nil r.answer))) [
      | inl e ↦ rw e (omega arith)
      | inr e ↦ rw e (Costs-follow_authority server r r.authority h)
    ]

  Costs-walk_from :
      (zone : Text) (left : ℕ) (server : Text)
      → Costs (3 * left) (walk_from net timeout zone left server)
  unfolding walk_from
  Costs-walk_from zone zero server h = omega arith
  Costs-walk_from zone (suc left) server h =
      let x = exchange_context net timeout (iterative zone type_ns) server h in
      omega (
        arith,
        Costs-exchange_context net timeout (iterative zone type_ns) server h,
        Costs-on_reply zone (3 * left) (walk_from net timeout zone left) (Costs-walk_from zone left)
            server x.0 x.1,
      )

  -- A delegation walk sends thirty queries at most, whatever the servers answer.
  pub queries-walk_delegation :
      (zone : Text) (h : History) → queries (walk_delegation net timeout zone h).1 ≤ queries h + 30
  unfolding walk_delegation
  queries-walk_delegation zone h = Costs-walk_from (net.fqdn zone) 10 net.root_server h
