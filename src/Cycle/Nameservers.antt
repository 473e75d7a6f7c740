-- ===== src/Cycle/Nameservers.antt =====
-- cycle/runner.go: buildInitialNameservers and hostsNeedingAugmentation.
pub mod Laws
use dnshealth_exporter.Prelude.{
  ℕ, Bool, true, false, not, ◌&&◌, ◌||◌, Option, none, some, List, [], ◌∷◌, ◌++◌, if◌then◌else◌,
  is_nil,
}
use dnshealth_exporter.Text.{Text, contains, lookup, insert}
use dnshealth_exporter.Resolver.{Nameserver}

-- hostname + ":" + ip
unfoldable pub server_key : Text → Text → Text
server_key host ip = host ++ (b':' ∷ ip)

-- The loop over the records, with the servers and the keys so far.
unfoldable pub initial_from :
    List Nameserver × List Text → List Nameserver → List Nameserver × List Text
unfolding contains server_key
initial_from (nss, seen) [] = (nss, seen)
initial_from (nss, seen) (n ∷ ns) =
    initial_from
      (if is_nil n.ip || contains seen (server_key n.hostname n.ip)
        then (nss, seen)
        else (nss ++ n ∷ [], server_key n.hostname n.ip ∷ seen))
      ns

unfoldable pub build_initial_nameservers : List Nameserver → List Nameserver × List Text
unfolding initial_from
build_initial_nameservers = initial_from ([], [])

-- Which address families the glue of a host covers.
pub record Families : Type 0 where
  pub v4 : Bool
  pub v6 : Bool

abbrev pub or_uncovered : Option Families → Families
or_uncovered none = record { v4 = false; v6 = false }
or_uncovered (some f) = f

abbrev pub families_of : Text → List (Text × Families) → Families
families_of host m = or_uncovered (lookup host m)

-- `is_ipv6` is isIPv6, by way of net.ParseIP.
module _ (is_ipv6 : Text → Bool) where
  abbrev pub cover : Text → Families → Families
  cover ip f =
      if is_nil ip then f else if is_ipv6 ip then record f { v6 = true } else record f { v4 = true }

  unfoldable pub families : List (Text × Families) → List Nameserver → List (Text × Families)
  unfolding lookup insert
  families m [] = m
  families m (n ∷ ns) = families (insert n.hostname (cover n.ip (families_of n.hostname m)) m) ns

  unfoldable pub uncovered : List (Text × Families) → List Text
  uncovered [] = []
  uncovered ((host, f) ∷ m) = if not f.v4 || not f.v6 then host ∷ uncovered m else uncovered m

  -- In the order in which the hosts are first seen; the source ranges over a map.
  unfoldable pub hosts_needing_augmentation : List Nameserver → List Text
  unfolding uncovered families
  hosts_needing_augmentation ns = uncovered (families [] ns)
