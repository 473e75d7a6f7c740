-- ===== src/Probe/NsHostname.antt =====
-- prober/ns_hostname.go: the syntax of a name server's host name, and whether it is an alias.
pub mod Syntax
use dnshealth_exporter.Prelude.{
  ℕ, ◌-◌, Bool, true, false, not, ◌&&◌, ◌||◌, Option, none, some, List, [], ◌∷◌, ◌>>=◌, return,
  if◌then◌else◌, length, leb, ltb, eqb, is_nil, all,
}
use dnshealth_exporter.Text.{Text, bytes, to_lower, trim_suffix, split, lookup, insert}
use dnshealth_exporter.Dns.{Net, M, time_now}
use dnshealth_exporter.Dns.Errors.{Result, ok, err}
use dnshealth_exporter.Resolver.{Nameserver}
use dnshealth_exporter.Resolver.Cname.{lookup_cname}
use dnshealth_exporter.Probe.{ProbeResult, bool_to_float}

-- The switch on a byte of a label.
unfoldable pub is_label_byte : ℕ → Bool
is_label_byte c =
    (leb b'a' c && leb c b'z')
    || (leb b'A' c && leb c b'Z')
    || (leb b'0' c && leb c b'9')
    || eqb c b'-'

-- label[len(label)-1] == '-'
unfoldable pub ends_in_hyphen : Text → Bool
ends_in_hyphen [] = false
ends_in_hyphen (c ∷ []) = eqb c b'-'
ends_in_hyphen (c ∷ d ∷ cs) = ends_in_hyphen (d ∷ cs)

unfoldable pub starts_with_hyphen : Text → Bool
starts_with_hyphen [] = false
starts_with_hyphen (c ∷ cs) = eqb c b'-'

-- The loop over the bytes.
unfoldable pub all_label_bytes : Text → Bool
unfolding is_label_byte
all_label_bytes [] = true
all_label_bytes (c ∷ cs) = is_label_byte c && all_label_bytes cs

unfoldable pub is_valid_hostname_label : Text → Bool
unfolding all_label_bytes starts_with_hyphen ends_in_hyphen
is_valid_hostname_label label =
    if is_nil label || ltb 63 (length label)
    then false
    else if starts_with_hyphen label || ends_in_hyphen label
    then false
    else all_label_bytes label

unfoldable pub all_valid_labels : List Text → Bool
unfolding is_valid_hostname_label
all_valid_labels [] = true
all_valid_labels (l ∷ ls) = is_valid_hostname_label l && all_valid_labels ls

-- The test on a name without its last dot.
unfoldable pub is_valid_stripped : Text → Bool
unfolding all_valid_labels split
is_valid_stripped name =
    if is_nil name || ltb 253 (length name) then false else all_valid_labels (split b'.' name)

unfoldable pub is_valid_ns_hostname : Text → Bool
unfolding is_valid_stripped trim_suffix
is_valid_ns_hostname name = is_valid_stripped (trim_suffix b'.' name)

-- cnameResult
pub record CnameResult : Type 0 where
  pub is_cname : Bool
  pub duration : ℕ

abbrev pub no_error_and : Result Bool → Bool
no_error_and (ok b) = b
no_error_and (err e) = false

abbrev pub hostname_result : Text → Nameserver → CnameResult → ProbeResult
hostname_result zone ns cached = record {
  zone = zone;
  check = bytes "ns_hostname";
  nameserver = ns.hostname;
  ip = ns.ip;
  success = true;
  timed_out = false;
  duration = cached.duration;
  metrics =
      (bytes "ns_hostname_syntax_valid", bool_to_float (is_valid_ns_hostname ns.hostname))
      ∷ (bytes "ns_hostname_is_cname", bool_to_float cached.is_cname)
      ∷ [];
  labels = [];
}

module _ (net : Net) (timeout : ℕ) (zone : Text) where
  -- The cached result of a host, or a new one.
  unfoldable pub cached_cname :
      Text
      → Text
      → List (Text × CnameResult)
      → Option CnameResult
      → M (CnameResult × List (Text × CnameResult))
  unfolding insert lookup_cname time_now
  cached_cname host key cache (some known) = return (known, cache)
  cached_cname host key cache none = do
    start ← time_now net
    found ← lookup_cname net timeout host
    stop ← time_now net
    let result : CnameResult = record { is_cname = no_error_and found; duration = stop - start }
    return (result, insert key result cache)

  unfoldable pub probe_one_ns_hostname :
      List (Text × CnameResult) → Nameserver → M (ProbeResult × List (Text × CnameResult))
  unfolding cached_cname lookup to_lower
  probe_one_ns_hostname cache ns = do
    let key = to_lower (net.fqdn ns.hostname)
    (cached, cache') ← cached_cname ns.hostname key cache (lookup key cache)
    return (hostname_result zone ns cached, cache')

  unfoldable pub hostname_loop : List (Text × CnameResult) → List Nameserver → M (List ProbeResult)
  unfolding probe_one_ns_hostname
  hostname_loop cache [] = return []
  hostname_loop cache (ns ∷ nss) = do
    (result, cache') ← probe_one_ns_hostname cache ns
    results ← hostname_loop cache' nss
    return (result ∷ results)

  unfoldable pub probe_ns_hostname : List Nameserver → M (List ProbeResult)
  unfolding hostname_loop
  probe_ns_hostname nameservers = hostname_loop [] nameservers
