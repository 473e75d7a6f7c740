-- ===== src/Config.antt =====
-- config/config.go: loading, defaults and validation of the configuration.
pub mod Laws
use dnshealth_exporter.Prelude.{
  ℕ, suc, ◌*◌, Bool, true, false, not, ◌&&◌, ◌||◌, Option, none, some, List, [], ◌∷◌, ◌++◌,
  if◌then◌else◌, is_nil, eqb, any,
}
use dnshealth_exporter.Prelude.Int.{ℤ, pos, is_zero}
use dnshealth_exporter.Text.{Text, bytes, ◌==◌, trim_space, lookup, insert}

-- Durations are nanoseconds, and may be negative.
pub record Config : Type 0 where
  pub zones : List Text
  pub probe_interval : ℤ
  pub delegation_cache_ttl : ℤ
  pub query_timeout : ℤ
  pub zone_deadline : ℤ
  pub address_overrides : List (Text × Text)
  pub root_servers : List Text

pub data ConfigError : Type 0 where
  unreadable unparsable no_zones : ConfigError
  bad_override_key : Text → ConfigError
  colliding_key : (key canonical : Text) → ConfigError
  empty_zone : ℕ → ConfigError
  bad_zone : Text → ConfigError

pub data Loaded (A : Type 0) : Type 0 where
  ok : A → Loaded A
  err : ConfigError → Loaded A

infixl 5 ◌>>=◌
abbrev pub ◌>>=◌ : {A B : Type 0} → Loaded A → (A → Loaded B) → Loaded B
ok a >>= f = f a
err e >>= f = err e

-- strings.Contains(z, ".")
abbrev pub has_dot : Text → Bool
has_dot = any (eqb b'.')

abbrev pub default_to : ℕ → ℤ → ℤ
default_to n d = if is_zero d then pos n else d

abbrev pub second : ℕ
second = 1_000_000_000

unfoldable pub apply_defaults : Config → Config
apply_defaults c = record c {
  probe_interval = default_to (60 * second) c.probe_interval;
  delegation_cache_ttl = default_to (30 * 60 * second) c.delegation_cache_ttl;
  query_timeout = default_to (5 * second) c.query_timeout;
  zone_deadline = default_to (30 * second) c.zone_deadline;
}

-- The zones with their white space trimmed, or the first error, from index `i` on.
abbrev pub check_zone : ℕ → Text → Loaded Text
check_zone i z =
    if is_nil z then err (empty_zone i) else if has_dot z then ok z else err (bad_zone z)

unfoldable pub check_zones : ℕ → List Text → Loaded (List Text)
unfolding trim_space
check_zones i [] = ok []
check_zones i (z ∷ zs) = do
  z' ← check_zone i (trim_space z)
  zs' ← check_zones (suc i) zs
  ok (z' ∷ zs')

unfoldable pub validate : Config → Loaded Config
unfolding check_zones
validate c = do
  zs ← (if is_nil c.zones then err no_zones else check_zones 0 c.zones)
  ok (record c { zones = zs })

-- net.JoinHostPort(ip, "53")
unfoldable pub join_host_port : Text → Text
join_host_port ip = if any (eqb b':') ip then b'[' ∷ (ip ++ bytes "]:53") else ip ++ bytes ":53"

-- `canonical ip` is net.ParseIP(ip).String(), or none if the text is no address.
module _ (canonical : Text → Option Text) where
  abbrev pub clashes : Option Text → Text → Bool
  clashes none v = false
  clashes (some old) v = not (old == v)

  abbrev pub add_override :
      Text → Text → Option Text → List (Text × Text) → Loaded (List (Text × Text))
  add_override k v none m = err (bad_override_key k)
  add_override k v (some key) m =
      if clashes (lookup key m) v then err (colliding_key k key) else ok (insert key v m)

  -- The loop over the entries; `m` is the new map so far.
  unfoldable pub canonical_overrides :
      List (Text × Text) → List (Text × Text) → Loaded (List (Text × Text))
  unfolding ◌==◌ lookup insert
  canonical_overrides m [] = ok m
  canonical_overrides m ((k, v) ∷ rest) = do
    m' ← add_override k v (canonical k) m
    canonical_overrides m' rest

  unfoldable pub canonicalise_override_keys : Config → Loaded Config
  unfolding canonical_overrides
  canonicalise_override_keys c = do
    m ← canonical_overrides [] c.address_overrides
    ok (record c { address_overrides = m })

  -- What follows the decoder of package yaml.
  unfoldable pub load_parsed : Option Config → Loaded Config
  unfolding apply_defaults canonicalise_override_keys validate
  load_parsed none = err unparsable
  load_parsed (some c) = do c' ← canonicalise_override_keys (apply_defaults c); validate c'

  -- The file as it was read, and the decoder.
  unfoldable pub load : Option Text → (Text → Option Config) → Loaded Config
  unfolding load_parsed
  load none unmarshal = err unreadable
  load (some file) unmarshal = load_parsed (unmarshal file)

  abbrev pub override_key : Text → Text
  override_key ip = elim (canonical ip) [ none ↦ ip | some key ↦ key ]

  unfoldable pub resolve_address : Config → Text → Text
  unfolding lookup join_host_port
  resolve_address c ip = elim (lookup (override_key ip) c.address_overrides) [
    | none ↦ join_host_port ip
    | some address ↦ address
  ]
