-- ===== src/Resolver/Cname.antt =====
-- prober/ns_hostname.go: lookupCNAME.
pub mod Bounds
use dnshealth_exporter.Prelude.{
  ℕ, zero, suc, Bool, true, false, List, [], ◌∷◌, ◌>>=◌, return, if◌then◌else◌,
}
use dnshealth_exporter.Text.{Text}
use dnshealth_exporter.Dns.{
  Net, Rr, cname, Reply, Outcome, M, iterative, exchange_context, type_cname,
}
use dnshealth_exporter.Dns.Errors.{Error, plain, wrapped, Result, ok, err}
use dnshealth_exporter.Resolver.{ns_targets, referral_glue, first_glued}

unfoldable pub has_cname : List Rr → Bool
has_cname [] = false
has_cname (cname o t ∷ rrs) = true
has_cname (_ ∷ rrs) = has_cname rrs

abbrev pub cname_rounds : ℕ
cname_rounds = 10

module _ (net : Net) (timeout : ℕ) where
  continue_at : (Text → M (Result Bool)) → Text → M (Result Bool)
  continue_at walk [] = return (ok false)
  continue_at walk (c ∷ cs) = walk (c ∷ cs)

  on_reply : (Text → M (Result Bool)) → Outcome → M (Result Bool)
  unfolding continue_at has_cname first_glued referral_glue ns_targets
  on_reply walk (err e) = return (err (wrapped e))
  on_reply walk (ok r) =
      if has_cname r.answer
      then return (ok true)
      else continue_at walk (first_glued net (referral_glue r.additional) (ns_targets r.authority))

  -- The loop, with the rounds that are left.
  cname_from : Text → ℕ → Text → M (Result Bool)
  unfolding on_reply exchange_context
  cname_from host zero server = return (err plain)
  cname_from host (suc left) server = do
    outcome ← exchange_context net timeout (iterative host type_cname) server
    on_reply (cname_from host left) outcome

  unfoldable pub lookup_cname : Text → M (Result Bool)
  unfolding cname_from
  lookup_cname hostname = cname_from (net.fqdn hostname) cname_rounds net.root_server
