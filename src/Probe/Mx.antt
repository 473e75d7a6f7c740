-- ===== src/Probe/Mx.antt =====
-- prober/mx.go: the MX records of a zone and the state of their targets.
pub mod Results
use dnshealth_exporter.Prelude.{
  ℕ, Bool, true, false, Option, none, some, List, [], ◌∷◌, ◌>>=◌, return, if◌then◌else◌, is_nil,
}
use dnshealth_exporter.Text.{Text, bytes, ◌==◌, to_lower, contains, lookup, insert}
use dnshealth_exporter.Text.Pad.{pad5}
use dnshealth_exporter.Dns.{Net, Rr, mx, Outcome, M, type_mx, question}
use dnshealth_exporter.Dns.Errors.{is_timeout, Result, ok, err}
use dnshealth_exporter.Retry.{exchange_with_retry}
use dnshealth_exporter.Resolver.{Nameserver}
use dnshealth_exporter.Resolver.Cname.{lookup_cname}
use dnshealth_exporter.Resolver.Hostnames.{resolve_hostnames}
use dnshealth_exporter.Probe.{ProbeResult, zone_result, bool_to_float}
use dnshealth_exporter.Probe.NsHostname.{is_valid_ns_hostname, no_error_and}
use dnshealth_exporter.Probe.Soa.{has_address}

abbrev pub mx_check : Text
mx_check = bytes "mx"

-- The target and the preference of an MX record.
pub record MxRecord : Type 0 where
  pub target : Text
  pub preference : ℕ

-- The top-level result, attributed to the server that was asked last.
abbrev pub mx_query_result : Text → Text → Bool → Bool → ProbeResult
mx_query_result zone ip success timed_out = record (zone_result zone mx_check) {
  ip = ip;
  success = success;
  timed_out = timed_out;
}

abbrev pub mx_info_result : Text → MxRecord → ProbeResult
mx_info_result zone r = record (zone_result zone mx_check) {
  labels = (bytes "target", r.target) ∷ (bytes "priority", pad5 r.preference) ∷ [];
  metrics = (bytes "mx_info", 1) ∷ [];
}

abbrev pub validity_result : Text → Text → List (Text × ℕ) → ProbeResult
validity_result zone target metrics = record (zone_result zone mx_check) {
  labels = (bytes "target", target) ∷ [];
  metrics = metrics;
}

-- resolvesCache, cnameCache and emittedValidity.
pub record MxCaches : Type 0 where
  pub resolves : List (Text × Bool)
  pub cnames : List (Text × Bool)
  pub emitted : List Text

abbrev pub no_caches : MxCaches
no_caches = record { resolves = []; cnames = []; emitted = [] }

module _ (net : Net) (timeout : ℕ) (zone : Text) where
  -- The MX records of an answer, with their targets as canonical names.
  unfoldable pub mx_records : List Rr → List MxRecord
  unfolding to_lower
  mx_records [] = []
  mx_records (mx o t p ∷ rrs) =
      record { target = to_lower (net.fqdn t); preference = p } ∷ mx_records rrs
  mx_records (_ ∷ rrs) = mx_records rrs

  abbrev pub mx_of : Outcome → Result (List MxRecord)
  mx_of (err e) = err e
  mx_of (ok r) = ok (mx_records r.answer)

  unfoldable pub query_mx : Text → M (Result (List MxRecord))
  unfolding exchange_with_retry mx_records
  query_mx server = do
    outcome ← exchange_with_retry net timeout (question (net.fqdn zone) type_mx) server
    return (mx_of outcome)

  -- The state of the loop over the name servers: the last address asked, and the last result.
  abbrev pub Asked : Type 0
  Asked = Text × Result (List MxRecord)

  -- The first answer ends the loop.
  unless_answered : (Asked → M Asked) → Asked → M Asked
  unless_answered more (ip, ok rs) = return (ip, ok rs)
  unless_answered more (ip, err e) = more (ip, err e)

  unfoldable pub first_answer : List Nameserver → Asked → M Asked
  unfolding query_mx unless_answered
  first_answer [] last = return last
  first_answer (n ∷ ns) last =
      let skipped = first_answer ns last in
      let asked : M Asked = (do
        result ← query_mx (net.resolve_address n.ip)
        unless_answered (first_answer ns) (n.ip, result)) in
      if is_nil n.ip then skipped else asked

  cached_resolves : Text → List (Text × Bool) → Option Bool → M (Bool × List (Text × Bool))
  unfolding resolve_hostnames insert
  cached_resolves target cache (some known) = return (known, cache)
  cached_resolves target cache none = do
    ips ← resolve_hostnames net timeout target
    return (has_address ips, insert target (has_address ips) cache)

  cached_cname : Text → List (Text × Bool) → Option Bool → M (Bool × List (Text × Bool))
  unfolding lookup_cname insert
  cached_cname target cache (some known) = return (known, cache)
  cached_cname target cache none = do
    found ← lookup_cname net timeout target
    return (no_error_and found, insert target (no_error_and found) cache)

  -- The checks of a target that is not the null target.
  unfoldable pub check_target : Text → MxCaches → M (ProbeResult × MxCaches)
  unfolding cached_resolves cached_cname lookup is_valid_ns_hostname
  check_target target c = do
    (resolves, resolves_cache) ← cached_resolves target c.resolves (lookup target c.resolves)
    (is_cname, cname_cache) ← cached_cname target c.cnames (lookup target c.cnames)
    let metrics : List (Text × ℕ) =
        ((bytes "mx_resolves", bool_to_float resolves)
          ∷ (bytes "mx_is_cname", bool_to_float is_cname)
          ∷ (bytes "mx_syntax_valid", bool_to_float (is_valid_ns_hostname target))
          ∷ [])
    return (
      validity_result zone target metrics,
      record c { resolves = resolves_cache; cnames = cname_cache },
    )

  unfoldable pub check_validity : Text → MxCaches → M (ProbeResult × MxCaches)
  unfolding check_target ◌==◌
  check_validity target c =
      if target == bytes "."
      then return (validity_result zone target ((bytes "mx_syntax_valid", 1) ∷ []), c)
      else check_target target c

  -- An information result for each record, and a validity result for each new target.
  unfoldable pub mx_loop : MxCaches → List MxRecord → M (List ProbeResult)
  unfolding check_validity contains to_lower
  mx_loop c [] = return []
  mx_loop c (r ∷ rs) =
      let known : M (List ProbeResult) = (do
        rest ← mx_loop c rs
        return (mx_info_result zone r ∷ rest)) in
      let fresh : M (List ProbeResult) = (do
        (validity, c') ← check_validity r.target (record c { emitted = r.target ∷ c.emitted })
        rest ← mx_loop c' rs
        return (mx_info_result zone r ∷ validity ∷ rest)) in
      if contains c.emitted r.target then known else fresh

  -- ProbeMX makes the targets canonical once more.
  canonical_targets : List MxRecord → List MxRecord
  unfolding to_lower
  canonical_targets [] = []
  canonical_targets (r ∷ rs) =
      record r { target = to_lower (net.fqdn r.target) } ∷ canonical_targets rs

  unfoldable pub report_mx : Asked → M (List ProbeResult)
  unfolding mx_loop is_timeout canonical_targets
  report_mx (ip, err e) = return (mx_query_result zone ip false (is_timeout e) ∷ [])
  report_mx (ip, ok rs) = do
    rest ← mx_loop no_caches (canonical_targets rs)
    return (mx_query_result zone ip true false ∷ rest)

  -- With no address to ask there are no records and no error.
  unfoldable pub probe_mx : List Nameserver → M (List ProbeResult)
  unfolding first_answer report_mx
  probe_mx [] = return []
  probe_mx (n ∷ ns) = do asked ← first_answer (n ∷ ns) ([], ok []); report_mx asked
