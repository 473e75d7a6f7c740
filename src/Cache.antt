-- ===== src/Cache.antt =====
-- cache/delegation.go: delegation results with the time they were stored. Times are nanoseconds.
pub mod Laws
use dnshealth_exporter.Prelude.{ℕ, ◌-◌, Option, none, some, List, [], ltb, if◌then◌else◌, length}
use dnshealth_exporter.Text.{Text, lookup, insert}

pub record DelegationEntry (A : Type 0) : Type 0 where
  pub stored : A
  pub cached_at : ℕ

pub record DelegationCache (A : Type 0) : Type 0 where
  pub entries : List (Text × DelegationEntry A)
  pub ttl : ℕ

module _ {A : Type 0} where
  unfoldable pub new_delegation_cache : ℕ → DelegationCache A
  new_delegation_cache ttl = record { entries = []; ttl = ttl }

  -- An entry that is older than the time to live is not returned; nor is it removed.
  abbrev pub fresh : ℕ → ℕ → DelegationEntry A → Option A
  fresh now ttl e = if ltb ttl (now - e.cached_at) then none else some e.stored

  unfoldable pub get : DelegationCache A → ℕ → Text → Option A
  unfolding lookup
  get c now zone = elim (lookup zone c.entries) [ none ↦ none | some e ↦ fresh now c.ttl e ]

  unfoldable pub set : DelegationCache A → ℕ → Text → A → DelegationCache A
  unfolding insert
  set c now zone a = record c {
    entries = insert zone (record { stored = a; cached_at = now }) c.entries;
  }

  unfoldable pub invalidate : DelegationCache A → DelegationCache A
  invalidate c = record c { entries = [] }

  unfoldable pub len : DelegationCache A → ℕ
  len c = length c.entries
