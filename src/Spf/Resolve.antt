-- ===== src/Spf/Resolve.antt =====
-- prober/spf_resolve.go: the resolution of the record that an include or redirect names.
pub mod Bounds
use dnshealth_exporter.Prelude.{
  ℕ, zero, suc, Bool, true, false, ◌||◌, not, Option, none, some, List, [], ◌∷◌, ◌>>=◌, return,
  if◌then◌else◌, is_nil,
}
use dnshealth_exporter.Text.{Text, lookup, ◌==◌, concat, trim_space}
use dnshealth_exporter.Dns.{
  Net, Rr, txt, Reply, Rcode, success, name_error, failure, Outcome, M, iterative, context_ended,
  type_txt,
}
use dnshealth_exporter.Dns.Errors.{Result, ok, err}
use dnshealth_exporter.Retry.{exchange_with_retry}
use dnshealth_exporter.Resolver.{ns_targets, referral_glue, first_glued}
use dnshealth_exporter.Resolver.Hostnames.{resolve_hostnames}
use dnshealth_exporter.Spf.{is_spf_record}

-- The TXT records of an answer, each with its strings joined.
unfoldable pub txt_records : List Rr → List Text
unfolding concat
txt_records [] = []
txt_records (txt o ss ∷ rrs) = concat ss ∷ txt_records rrs
txt_records (_ ∷ rrs) = txt_records rrs

-- NOERROR or NXDOMAIN.
abbrev pub is_answer : Rcode → Bool
is_answer success = true
is_answer name_error = true
is_answer (failure n) = false

abbrev pub is_name_error : Rcode → Bool
is_name_error name_error = true
is_name_error success = false
is_name_error (failure n) = false

-- spfResolveMaxHops
abbrev pub spf_resolve_max_hops : ℕ
spf_resolve_max_hops = 16

module _ (net : Net) (timeout : ℕ) where
  -- The first host of a referral that resolves to an address.
  resolved_or : Result (List Text) → M Text → M Text
  resolved_or (ok (ip ∷ ips)) rest = return (net.resolve_address ip)
  resolved_or (ok []) rest = rest
  resolved_or (err e) rest = rest

  resolve_hosts : List Text → M Text
  unfolding resolved_or resolve_hostnames
  resolve_hosts [] = return []
  resolve_hosts (t ∷ ts) = do
    ips ← resolve_hostnames net timeout t
    resolved_or ips (resolve_hosts ts)

  -- A glued host is taken even if its server is the empty text.
  any_glued : List (Text × Text) → List Text → Bool
  any_glued glue [] = false
  any_glued glue (t ∷ ts) = elim (lookup t glue) [ none ↦ any_glued glue ts | some ip ↦ true ]

  unfoldable pub next_referral_server : Reply → M Text
  unfolding resolve_hosts any_glued first_glued referral_glue ns_targets
  next_referral_server r =
      if any_glued (referral_glue r.additional) (ns_targets r.authority)
      then return (first_glued net (referral_glue r.additional) (ns_targets r.authority))
      else resolve_hosts (ns_targets r.authority)

  unfoldable pub advance : (Text → M (List Text)) → Text → Text → M (List Text)
  unfolding ◌==◌
  advance walk server next = if is_nil next || next == server then return [] else walk next

  on_reply : (Text → M (List Text)) → Text → Outcome → M (List Text)
  unfolding advance next_referral_server txt_records
  on_reply walk server (err e) = return []
  on_reply walk server (ok r) =
      if not (is_answer r.rcode)
      then return []
      else if r.authoritative || is_name_error r.rcode || is_nil r.authority
      then return (txt_records r.answer)
      else do next ← next_referral_server r; advance walk server next

  -- One hop, unless the context has ended.
  hop : (Text → M (List Text)) → Text → Text → Bool → M (List Text)
  unfolding on_reply exchange_with_retry
  hop walk name server true = return []
  hop walk name server false = do
    outcome ← exchange_with_retry net timeout (iterative name type_txt) server
    on_reply walk server outcome

  -- The loop, with the hops that are left.
  txt_from : Text → ℕ → Text → M (List Text)
  unfolding hop context_ended
  txt_from name zero server = return []
  txt_from name (suc left) server = do
    ended ← context_ended net
    hop (txt_from name left) name server ended

  unfoldable pub iterative_resolve_txt : Text → M (List Text)
  unfolding txt_from
  iterative_resolve_txt name = txt_from (net.fqdn name) spf_resolve_max_hops net.root_server

  unfoldable pub first_spf : List Text → Option Text
  unfolding is_spf_record trim_space
  first_spf [] = none
  first_spf (t ∷ ts) = if is_spf_record t then some (trim_space t) else first_spf ts

  unfoldable pub resolve_spf_record : Text → M (Option Text)
  unfolding iterative_resolve_txt first_spf
  resolve_spf_record name = do txts ← iterative_resolve_txt name; return (first_spf txts)
