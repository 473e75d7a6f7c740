-- ===== src/Spf/Resolve/Bounds.antt =====
-- The queries of the resolution of one SPF record.
use dnshealth_exporter.Prelude.{
  ℕ, zero, suc, ◌+◌, ◌*◌, ◌/◌, ◌≤◌, Bool, true, false, not, ◌||◌, List, [], ◌∷◌, arith, length, ◌≡◌,
  refl, sym, subst, is_nil, Bool-cases, inl, inr,
}
use native.Mathlib.Nat.{mul-le-mul_right}
use dnshealth_exporter.Text.{Text, ◌==◌}
use dnshealth_exporter.Dns.{
  Net, Query, Outcome, M, History, Reply, iterative, exchanged, context_read, type_txt,
  context_ended,
}
use dnshealth_exporter.Dns.Queries.{queries}
use dnshealth_exporter.Dns.Costs.{Costs}
use dnshealth_exporter.Dns.Errors.{Error, ok, err}
use dnshealth_exporter.Retry.{exchange_with_retry}
use dnshealth_exporter.Retry.Laws.{queries-exchange_with_retry, exchange_with_retry_outcome}
use dnshealth_exporter.Resolver.{ns_targets, referral_glue}
use dnshealth_exporter.Resolver.Hostnames.{resolve_hostnames}
use dnshealth_exporter.Resolver.Hostnames.Bounds.{ListsAtMost, queries-resolve_hostnames}
use dnshealth_exporter.Spf.Resolve.{
  is_answer, is_name_error, resolved_or, resolve_hosts, any_glued, next_referral_server, advance,
  on_reply, hop, txt_from, iterative_resolve_txt, resolve_spf_record,
}

-- What the resolution of one host name costs, and then that of one record: at most sixteen hops, with
-- a query and its retry each, and with the resolution of up to `n` name servers.
abbrev pub hostname_bound : ℕ → ℕ
hostname_bound n = 20 * (1 + n * (10 * (1 + n * (10 * (1 + n * 10)))))

abbrev pub record_bound : ℕ → ℕ
record_bound n = 16 * (2 + n * hostname_bound n)

module _ (net : Net) (timeout : ℕ) (n : ℕ) (few : ListsAtMost n net) where
  abbrev Few : Outcome → Type 0
  Few (ok r) = length (ns_targets r.authority) ≤ n
  Few (err e) = Unit

  exchange-Few : (h : History) (q : Query) (t : ℕ) (server : Text) → Few (net.exchange h q t server)
  exchange-Few h q t server = by_outcome (net.exchange h q t server) refl
    where
      by_outcome : (o : Outcome) → net.exchange h q t server ≡ o → Few o
      by_outcome (ok r) e = few h q t server r e
      by_outcome (err x) e = tt

  -- A reply that a retry returns is one that a server gave.
  exchange_with_retry-Few :
      (q : Query) (server : Text) (h : History) → Few (exchange_with_retry net timeout q server h).0
  exchange_with_retry-Few q server h =
      subst Few (sym (exchange_with_retry_outcome net timeout q server h))
        (first (net.exchange h q timeout server) (exchange-Few h q timeout server))
    where
      h1 : History
      h1 = exchanged q timeout server ∷ h

      second : Outcome
      second = net.exchange (context_read ∷ h1) q (timeout / 2) server

      other : (o : Outcome) (e : Error) → Few o → Few (elim o [ ok r ↦ ok r | err _ ↦ err e ])
      other (ok r) e f = f
      other (err x) e f = tt

      unless :
          (done : Bool) (e : Error)
          → Few (elim done [ true ↦ err e | false ↦ elim second [ ok r ↦ ok r | err _ ↦ err e ] ])
      unless true e = tt
      unless false e = other second e (exchange-Few _ q (timeout / 2) server)

      first :
          (o : Outcome)
          → Few o
          → Few (elim o [
            | ok r ↦ ok r
            | err e ↦ elim (net.context_done h1) [
              | true ↦ err e
              | false ↦ elim second [ ok r ↦ ok r | err _ ↦ err e ]
            ]
          ])
      first (ok r) f = f
      first (err e) f = unless (net.context_done h1) e

  Costs-resolve_hosts :
      (ts : List Text) → Costs (length ts * hostname_bound n) (resolve_hosts net timeout ts)
  unfolding resolve_hosts resolved_or
  Costs-resolve_hosts [] h = omega arith
  Costs-resolve_hosts (t ∷ ts) h =
      let x = resolve_hostnames net timeout t h in
      let one = queries-resolve_hostnames net timeout n few t h in
      let rest = Costs-resolve_hosts ts x.1 in
      elim x.0
        as (λ o.
          queries (resolved_or net timeout o (resolve_hosts net timeout ts) x.1).1
          ≤ queries h + suc (length ts) * hostname_bound n) [
            | ok [] ↦ omega arith
            | ok (ip ∷ ips) ↦ omega arith
            | err e ↦ omega arith
          ]

  Costs-next_referral_server :
      (r : Reply) → Few (ok r) → Costs (n * hostname_bound n) (next_referral_server net timeout r)
  unfolding next_referral_server
  Costs-next_referral_server r f h =
      elim (Bool-cases
        (any_glued net timeout (referral_glue r.additional) (ns_targets r.authority))) [
          | inl e ↦ rw e (omega arith)
          | inr e ↦ rw e (
              omega (
                arith,
                Costs-resolve_hosts (ns_targets r.authority) h,
                mul-le-mul_right (hostname_bound n) f,
              ))
        ]

  module _ (b : ℕ) (walk : Text → M (List Text)) (k : (t : Text) → Costs b (walk t)) where
    Costs-advance : (server next : Text) → Costs b (advance net timeout walk server next)
    unfolding advance
    Costs-advance server next h = elim (Bool-cases (is_nil next || next == server)) [
      | inl e ↦ rw e (omega arith)
      | inr e ↦ rw e (k next h)
    ]

    Costs-on_reply :
        (server : Text) (o : Outcome)
        → Few o
        → Costs (n * hostname_bound n + b) (on_reply net timeout walk server o)
    unfolding on_reply
    Costs-on_reply server (err e) f h = omega arith
    Costs-on_reply server (ok r) f h = elim (Bool-cases (not (is_answer r.rcode))) [
      | inl e ↦ rw e (omega arith)
      | inr e ↦ elim (Bool-cases (r.authoritative || is_name_error r.rcode || is_nil r.authority)) [
        | inl e' ↦ rw (e, e') (omega arith)
        | inr e' ↦
            let x = next_referral_server net timeout r h in
            rw (e, e')
              (omega (arith, Costs-next_referral_server r f h, Costs-advance server x.0 x.1))
      ]
    ]

    Costs-hop :
        (name server : Text) (ended : Bool)
        → Costs (2 + (n * hostname_bound n + b)) (hop net timeout walk name server ended)
    unfolding hop
    Costs-hop name server true h = omega arith
    Costs-hop name server false h =
        let q = iterative name type_txt in
        let x = exchange_with_retry net timeout q server h in
        omega (
          arith,
          (queries-exchange_with_retry net timeout q server h).1,
          Costs-on_reply server x.0 (exchange_with_retry-Few q server h) x.1,
        )

  Costs-txt_from :
      (name : Text) (left : ℕ) (server : Text)
      → Costs (left * (2 + n * hostname_bound n)) (txt_from net timeout name left server)
  unfolding txt_from context_ended
  Costs-txt_from name zero server h = omega arith
  Costs-txt_from name (suc left) server h =
      let x = context_ended net h in
      omega (
        arith,
        Costs-hop (left * (2 + n * hostname_bound n)) (txt_from net timeout name left)
            (Costs-txt_from name left) name server x.0 x.1,
      )

  -- Where no reply lists more than n name servers, the record of an include or redirect is resolved
  -- with at most 16 * (2 + n * b) queries, where b bounds the queries of a host name as
  -- queries-resolve_hostnames does.
  pub queries-resolve_spf_record :
      (name : Text) (h : History)
      → queries (resolve_spf_record net timeout name h).1 ≤ queries h + record_bound n
  unfolding resolve_spf_record iterative_resolve_txt
  queries-resolve_spf_record name h = Costs-txt_from (net.fqdn name) 16 net.root_server h
