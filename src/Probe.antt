-- ===== src/Probe.antt =====
-- prober/result.go: what a prober reports of one query, and what the probers share.
pub mod Soa
pub mod Recursion
pub mod Glue
pub mod NsHostname
pub mod NsClassification
pub mod Mx
pub mod EmailAuth
use dnshealth_exporter.Prelude.{ℕ, Bool, true, false, List, [], ◌∷◌, if◌then◌else◌, ◌>>=◌, return}
use dnshealth_exporter.Text.{Text}
use dnshealth_exporter.Dns.{M}

-- ProbeResult. Metric values are natural numbers here: gauges of 0 and 1, counts and SOA fields.
pub record ProbeResult : Type 0 where
  pub zone : Text
  pub check : Text
  pub nameserver : Text
  pub ip : Text
  pub success : Bool
  pub timed_out : Bool
  pub duration : ℕ
  pub metrics : List (Text × ℕ)
  pub labels : List (Text × Text)

-- A result of which only the check is known, as a literal leaves its other fields.
abbrev pub zone_result : Text → Text → ProbeResult
zone_result zone check = record {
  zone = zone;
  check = check;
  nameserver = [];
  ip = [];
  success = true;
  timed_out = false;
  duration = 0;
  metrics = [];
  labels = [];
}

-- boolToFloat
abbrev pub bool_to_float : Bool → ℕ
bool_to_float b = if b then 1 else 0

-- A loop that reports once for each item.
unfoldable pub for_each : {A B : Type 0} → (A → M B) → List A → M (List B)
for_each f [] = return []
for_each f (x ∷ xs) = do y ← f x; ys ← for_each f xs; return (y ∷ ys)
