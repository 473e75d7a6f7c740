-- ===== src/Examples/Names.antt =====
-- prober/ns_hostname.go, the padded priorities, and the servers of a zone on small inputs.
use dnshealth_exporter.Prelude.{
  Bool, true, false, not, ◌&&◌, ◌||◌, List, [], ◌∷◌, ◌≡◌, ◌↔◌, refl, any,
}
use dnshealth_exporter.Text.{Text, bytes, ◌==◌, contains, trim_suffix}
use dnshealth_exporter.Text.Maps.{is_distinct}
use dnshealth_exporter.Resolver.{Nameserver}
use dnshealth_exporter.Probe.NsHostname.{is_valid_ns_hostname}
use dnshealth_exporter.Probe.NsHostname.Syntax.{IsHostname, is_valid_ns_hostname_iff}
use dnshealth_exporter.Cycle.Nameservers.{build_initial_nameservers, hosts_needing_augmentation}
use dnshealth_exporter.Cycle.Nameservers.Laws.{
  keys, names_key, build_initial_nameservers-keys, of_host, gives_v4, gives_v6,
  contains-hosts_needing_augmentation,
}

accepts_name : is_valid_ns_hostname (bytes "ns-1.example.com.") ≡ true
unfolding is_valid_ns_hostname
accepts_name = refl

rejects_hyphen : is_valid_ns_hostname (bytes "ns-.example.com.") ≡ false
unfolding is_valid_ns_hostname
rejects_hyphen = refl

rejects_empty_label : is_valid_ns_hostname (bytes "ns..example.com") ≡ false
unfolding is_valid_ns_hostname
rejects_empty_label = refl

is_valid_ns_hostname_iff_example :
    (is_valid_ns_hostname (bytes "ns-1.example.com.") ≡ true)
    ↔ IsHostname (trim_suffix b'.' (bytes "ns-1.example.com."))
is_valid_ns_hostname_iff_example = is_valid_ns_hostname_iff (bytes "ns-1.example.com.")

-- One host with two addresses, one of them twice, and one without.
abbrev records : List Nameserver
records =
    record { hostname = bytes "ns1."; ip = bytes "192.0.2.1" }
    ∷ record { hostname = bytes "ns1."; ip = bytes "192.0.2.1" }
    ∷ record { hostname = bytes "ns1."; ip = bytes "2001:db8::1" }
    ∷ record { hostname = bytes "ns2."; ip = [] }
    ∷ []

-- Good enough for these addresses.
unfoldable has_colon : Text → Bool
has_colon [] = false
has_colon (c ∷ cs) = ((c ∷ []) == bytes ":") || has_colon cs

needs_ns2 : hosts_needing_augmentation has_colon records ≡ bytes "ns2." ∷ []
unfolding hosts_needing_augmentation has_colon ◌==◌
needs_ns2 = refl

build_initial_nameservers-keys_example :
    (is_distinct (keys (build_initial_nameservers records).0) ≡ true)
    × ((key : Text)
        → contains (keys (build_initial_nameservers records).0) key ≡ any (names_key key) records)
    × ((key : Text)
        → contains (build_initial_nameservers records).1 key
          ≡ contains (keys (build_initial_nameservers records).0) key)
build_initial_nameservers-keys_example = build_initial_nameservers-keys records

contains-hosts_needing_augmentation_example :
    contains (hosts_needing_augmentation has_colon records) (bytes "ns2.") ≡ (
      any (of_host (bytes "ns2.")) records
      && (not (any (gives_v4 has_colon (bytes "ns2.")) records)
          || not (any (gives_v6 has_colon (bytes "ns2.")) records)))
contains-hosts_needing_augmentation_example =
    contains-hosts_needing_augmentation has_colon records (bytes "ns2.")
