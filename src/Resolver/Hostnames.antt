-- ===== src/Resolver/Hostnames.antt =====
-- prober/prober.go: ResolveHostnames and resolveOneFamilyWithBudget.
pub mod Bounds
use dnshealth_exporter.Prelude.{ℕ, zero, suc, List, [], ◌∷◌, ◌++◌, ◌>>=◌, return}
use dnshealth_exporter.Text.{Text}
use dnshealth_exporter.Dns.{
  Net, Rr, ns, Reply, Outcome, M, iterative, exchange_context, Qtype, type_a, type_aaaa,
}
use dnshealth_exporter.Dns.Errors.{Error, plain, wrapped, Result, ok, err}
use dnshealth_exporter.Resolver.{ns_targets, referral_glue, first_glued, family_answer}

-- defaultReferralBudget
abbrev pub default_referral_budget : ℕ
default_referral_budget = 3

-- The rounds of one walk.
abbrev pub max_rounds : ℕ
max_rounds = 10

module _ (net : Net) (timeout : ℕ) where
  -- What the search among the hosts of a referral without glue does with one result.
  found_or : Result (List Text) → M Text → M Text
  found_or (ok (ip ∷ ips)) rest = return (net.resolve_address ip)
  found_or (ok []) rest = rest
  found_or (err e) rest = rest

  resolve_glueless : (Text → M (Result (List Text))) → List Text → M Text
  unfolding found_or
  resolve_glueless resolve [] = return []
  resolve_glueless resolve (t ∷ ts) = do ips ← resolve t; found_or ips (resolve_glueless resolve ts)

  -- The glued server, or else the one that the fallback finds.
  server_or : Text → M Text → M Text
  server_or [] fallback = fallback
  server_or (c ∷ cs) fallback = return (c ∷ cs)

  -- With no server left the name has no record of the family.
  continue_at : (Text → M (Result (List Text))) → Text → M (Result (List Text))
  continue_at walk [] = return (ok [])
  continue_at walk (c ∷ cs) = walk (c ∷ cs)

  follow :
      (List Text → M Text)
      → (Text → M (Result (List Text)))
      → Reply
      → List Text
      → M (Result (List Text))
  unfolding server_or continue_at first_glued referral_glue
  follow fallback walk r (ip ∷ ips) = return (ok (ip ∷ ips))
  follow fallback walk r [] = do
    s ←
        server_or (first_glued net (referral_glue r.additional) (ns_targets r.authority))
          (fallback (ns_targets r.authority))
    continue_at walk s

  on_answer :
      (List Text → M Text)
      → (Text → M (Result (List Text)))
      → Qtype
      → Outcome
      → M (Result (List Text))
  unfolding follow family_answer ns_targets
  on_answer fallback walk qtype (err e) = return (err (wrapped e))
  on_answer fallback walk qtype (ok r) = follow fallback walk r (family_answer qtype r.answer)

  -- The loop, with the rounds that are left.
  walk_family : (List Text → M Text) → Text → Qtype → ℕ → Text → M (Result (List Text))
  unfolding on_answer exchange_context
  walk_family fallback host qtype zero server = return (err plain)
  walk_family fallback host qtype (suc left) server = do
    outcome ← exchange_context net timeout (iterative host qtype) server
    on_answer fallback (walk_family fallback host qtype left) qtype outcome

  -- With no budget left a referral without glue is not followed.
  unfoldable pub resolve_with_budget : ℕ → Text → Qtype → M (Result (List Text))
  unfolding walk_family resolve_glueless
  resolve_with_budget zero host qtype =
      walk_family (λ _. return []) host qtype max_rounds net.root_server
  resolve_with_budget (suc budget) host qtype =
      walk_family (resolve_glueless (λ t. resolve_with_budget budget t type_a)) host qtype
        max_rounds net.root_server

  unfoldable pub resolve_one_family : Text → Qtype → M (Result (List Text))
  unfolding resolve_with_budget
  resolve_one_family = resolve_with_budget default_referral_budget

  -- The addresses of both families; an error only if both failed.
  abbrev pub both_families : Result (List Text) → Result (List Text) → Result (List Text)
  both_families (ok v4) (ok v6) = ok (v4 ++ v6)
  both_families (ok v4) (err _) = ok v4
  both_families (err _) (ok v6) = ok v6
  both_families (err _) (err _) = err plain

  unfoldable pub resolve_hostnames : Text → M (Result (List Text))
  unfolding resolve_one_family
  resolve_hostnames hostname = do
    v4 ← resolve_one_family (net.fqdn hostname) type_a
    v6 ← resolve_one_family (net.fqdn hostname) type_aaaa
    return (both_families v4 v6)
