-- ===== src/Resolver/Hostnames/Bounds.antt =====
-- The queries of one resolution of a host name.
use dnshealth_exporter.Prelude.{
  ℕ, zero, suc, ◌+◌, ◌*◌, ◌≤◌, List, [], ◌∷◌, return, arith, length, ◌≡◌, refl,
}
use native.Mathlib.Nat.{mul-le-mul_right}
use dnshealth_exporter.Text.{Text}
use dnshealth_exporter.Dns.{
  Net, Query, Outcome, M, History, Reply, iterative, exchanged, exchange_context, Qtype, type_a,
  type_aaaa,
}
use dnshealth_exporter.Dns.Queries.{queries}
use dnshealth_exporter.Dns.Costs.{Costs}
use dnshealth_exporter.Dns.Errors.{Result, ok, err}
use dnshealth_exporter.Resolver.{ns_targets, family_answer, first_glued, referral_glue}
use dnshealth_exporter.Resolver.Hostnames.{
  found_or, resolve_glueless, server_or, continue_at, follow, on_answer, walk_family,
  resolve_with_budget, resolve_hostnames, resolve_one_family,
}

-- Every reply lists at most `n` name servers in its authority section.
abbrev pub ListsAtMost : ℕ → Net → Type 0
ListsAtMost n net =
    (h : History) (q : Query) (timeout : ℕ) (server : Text) (r : Reply)
    → net.exchange h q timeout server ≡ ok r
    → length (ns_targets r.authority) ≤ n

-- Ten rounds, and in each of them up to `n` resolutions with a smaller budget.
abbrev pub family_bound : ℕ → ℕ → ℕ
family_bound n zero = 10
family_bound n (suc budget) = 10 * (1 + n * family_bound n budget)

module _ (net : Net) (timeout : ℕ) (n : ℕ) (few : ListsAtMost n net) where
  Costs-resolve_glueless :
      (b : ℕ) (resolve : Text → M (Result (List Text))) (ts : List Text)
      → ((t : Text) → Costs b (resolve t))
      → Costs (length ts * b) (resolve_glueless net timeout resolve ts)
  unfolding resolve_glueless found_or
  Costs-resolve_glueless b resolve [] k h = omega arith
  Costs-resolve_glueless b resolve (t ∷ ts) k h =
      let x = resolve t h in
      let rest = Costs-resolve_glueless b resolve ts k x.1 in
      elim x.0
        as (λ o.
          queries (found_or net timeout o (resolve_glueless net timeout resolve ts) x.1).1
          ≤ queries h + suc (length ts) * b) [
            | ok [] ↦ omega (arith, k t h)
            | ok (ip ∷ ips) ↦ omega (arith, k t h)
            | err e ↦ omega (arith, k t h)
          ]

  Costs-continue_at :
      (b : ℕ) (walk : Text → M (Result (List Text))) (s : Text)
      → ((t : Text) → Costs b (walk t))
      → Costs b (continue_at net timeout walk s)
  unfolding continue_at
  Costs-continue_at b walk [] k h = omega arith
  Costs-continue_at b walk (c ∷ cs) k h = k (c ∷ cs) h

  Costs-server_or :
      (b : ℕ) (s : Text) (m : M Text) → Costs b m → Costs b (server_or net timeout s m)
  unfolding server_or
  Costs-server_or b [] m k h = k h
  Costs-server_or b (c ∷ cs) m k h = omega arith

  module _ (f b : ℕ) (fallback : List Text → M Text) (walk : Text → M (Result (List Text)))
      (walk_bounded : (t : Text) → Costs b (walk t)) where
    Costs-follow :
        (r : Reply) (ips : List Text)
        → Costs f (fallback (ns_targets r.authority))
        → Costs (f + b) (follow net timeout fallback walk r ips)
    unfolding follow
    Costs-follow r (ip ∷ ips) k h = omega arith
    Costs-follow r [] k h =
        let glued = first_glued net (referral_glue r.additional) (ns_targets r.authority) in
        let x = server_or net timeout glued (fallback (ns_targets r.authority)) h in
        omega (
          arith,
          Costs-server_or f glued (fallback (ns_targets r.authority)) k h,
          Costs-continue_at b walk x.0 walk_bounded x.1,
        )

    Costs-on_answer :
        (qtype : Qtype) (o : Outcome)
        → ((r : Reply) → o ≡ ok r → Costs f (fallback (ns_targets r.authority)))
        → Costs (f + b) (on_answer net timeout fallback walk qtype o)
    unfolding on_answer
    Costs-on_answer qtype (err e) k h = omega arith
    Costs-on_answer qtype (ok r) k h = Costs-follow r (family_answer qtype r.answer) (k r refl) h

  Costs-walk_family :
      (f : ℕ) (fallback : List Text → M Text) (host : Text) (qtype : Qtype)
      → ((ts : List Text) → length ts ≤ n → Costs f (fallback ts))
      → (left : ℕ) (server : Text)
      → Costs (left * (1 + f)) (walk_family net timeout fallback host qtype left server)
  unfolding walk_family exchange_context
  Costs-walk_family f fallback host qtype k zero server h = omega arith
  Costs-walk_family f fallback host qtype k (suc left) server h = omega (
    arith,
    Costs-on_answer f (left * (1 + f)) fallback (walk_family net timeout fallback host qtype left)
        (Costs-walk_family f fallback host qtype k left) qtype
        (net.exchange h (iterative host qtype) timeout server)
        (λ r e. k (ns_targets r.authority) (few h (iterative host qtype) timeout server r e))
        (exchanged (iterative host qtype) timeout server ∷ h),
  )

  Costs-resolve_with_budget :
      (budget : ℕ) (host : Text) (qtype : Qtype)
      → Costs (family_bound n budget) (resolve_with_budget net timeout budget host qtype)
  unfolding resolve_with_budget
  Costs-resolve_with_budget zero host qtype h =
      Costs-walk_family 0 (λ _. return []) host qtype (λ ts le g. omega arith) 10 net.root_server h
  Costs-resolve_with_budget (suc budget) host qtype h =
      let resolve = λ (t : Text). resolve_with_budget net timeout budget t type_a in
      Costs-walk_family (n * family_bound n budget) (resolve_glueless net timeout resolve) host
        qtype
        (λ ts le g. omega (
          arith,
          Costs-resolve_glueless (family_bound n budget) resolve ts
              (λ t. Costs-resolve_with_budget budget t type_a) g,
          mul-le-mul_right (family_bound n budget) le,
        ))
        10 net.root_server h

  -- Where no reply lists more than n name servers, a host name is resolved, in both families, with
  -- at most 20 * (1 + n * (10 * (1 + n * (10 * (1 + n * 10))))) queries: the budget of three
  -- resolutions out of band bounds the recursion.
  pub queries-resolve_hostnames :
      (hostname : Text) (h : History)
      → queries (resolve_hostnames net timeout hostname h).1
        ≤ queries h + 20 * (1 + n * (10 * (1 + n * (10 * (1 + n * 10)))))
  unfolding resolve_hostnames
  queries-resolve_hostnames hostname h =
      let x = resolve_one_family net timeout (net.fqdn hostname) type_a h in
      omega (
        arith,
        Costs-resolve_with_budget 3 (net.fqdn hostname) type_a h,
        Costs-resolve_with_budget 3 (net.fqdn hostname) type_aaaa x.1,
      )
