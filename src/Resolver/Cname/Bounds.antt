-- ===== src/Resolver/Cname/Bounds.antt =====
-- The queries of one CNAME lookup.
use dnshealth_exporter.Prelude.{ℕ, zero, suc, ◌+◌, ◌≤◌, Bool, [], ◌∷◌, arith, Bool-cases, inl, inr}
use dnshealth_exporter.Text.{Text}
use dnshealth_exporter.Dns.{Net, Outcome, M, History, iterative, type_cname, exchange_context}
use dnshealth_exporter.Dns.Queries.{queries}
use dnshealth_exporter.Dns.Costs.{Costs, Costs-exchange_context}
use dnshealth_exporter.Dns.Errors.{Result, ok, err}
use dnshealth_exporter.Resolver.Cname.{continue_at, on_reply, cname_from, lookup_cname, has_cname}

module _ (net : Net) (timeout : ℕ) where
  Costs-continue_at :
      (b : ℕ) (walk : Text → M (Result Bool)) (s : Text)
      → ((t : Text) → Costs b (walk t))
      → Costs b (continue_at net timeout walk s)
  unfolding continue_at
  Costs-continue_at b walk [] k h = omega arith
  Costs-continue_at b walk (c ∷ cs) k h = k (c ∷ cs) h

  Costs-on_reply :
      (b : ℕ) (walk : Text → M (Result Bool)) (o : Outcome)
      → ((t : Text) → Costs b (walk t))
      → Costs b (on_reply net timeout walk o)
  unfolding on_reply
  Costs-on_reply b walk (err e) k h = omega arith
  Costs-on_reply b walk (ok r) k h = elim (Bool-cases (has_cname r.answer)) [
    | inl e ↦ rw e (omega arith)
    | inr e ↦ rw e (Costs-continue_at b walk _ k h)
  ]

  Costs-cname_from :
      (host : Text) (left : ℕ) (server : Text)
      → Costs left (cname_from net timeout host left server)
  unfolding cname_from
  Costs-cname_from host zero server h = omega arith
  Costs-cname_from host (suc left) server h =
      let x = exchange_context net timeout (iterative host type_cname) server h in
      omega (
        arith,
        Costs-exchange_context net timeout (iterative host type_cname) server h,
        Costs-on_reply left (cname_from net timeout host left) x.0 (Costs-cname_from host left) x.1,
      )

  -- A CNAME lookup sends ten queries at most, whatever the servers answer.
  pub queries-lookup_cname :
      (hostname : Text) (h : History)
      → queries (lookup_cname net timeout hostname h).1 ≤ queries h + 10
  unfolding lookup_cname
  queries-lookup_cname hostname h = Costs-cname_from (net.fqdn hostname) 10 net.root_server h
