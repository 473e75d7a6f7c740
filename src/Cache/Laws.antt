-- ===== src/Cache/Laws.antt =====
-- What a sequence of writes leaves in the delegation cache.
use dnshealth_exporter.Prelude.{
  ℕ, ◌+◌, leb, arith, Option, none, some, List, [], ◌∷◌, ◌≡◌, refl, ap, ◌∙◌, if◌then◌else◌,
}
use dnshealth_exporter.Text.{Text, ◌==◌, lookup}
use dnshealth_exporter.Text.Equality.{lookup-insert}
use dnshealth_exporter.Cache.{
  DelegationEntry, DelegationCache, new_delegation_cache, fresh, get, set, invalidate,
}

-- The operations that write, the latest first in a list of them.
pub data Write (A : Type 0) : Type 0 where
  stores : (now : ℕ) (zone : Text) (a : A) → Write A
  invalidates : Write A

module _ {A : Type 0} where
  abbrev pub after : ℕ → List (Write A) → DelegationCache A
  after ttl [] = new_delegation_cache ttl
  after ttl (stores now zone a ∷ ws) = set (after ttl ws) now zone a
  after ttl (invalidates ∷ ws) = invalidate (after ttl ws)

  -- The last result stored for a zone since the cache was last emptied.
  abbrev pub latest : Text → List (Write A) → Option (DelegationEntry A)
  latest zone [] = none
  latest zone (stores now z a ∷ ws) =
      if z == zone then some (record { stored = a; cached_at = now }) else latest zone ws
  latest zone (invalidates ∷ ws) = none

  after-ttl : (ttl : ℕ) (ws : List (Write A)) → (after ttl ws).ttl ≡ ttl
  unfolding new_delegation_cache set invalidate
  after-ttl ttl [] = refl
  after-ttl ttl (stores now zone a ∷ ws) = after-ttl ttl ws
  after-ttl ttl (invalidates ∷ ws) = after-ttl ttl ws

  lookup-after :
      (ttl : ℕ) (ws : List (Write A)) (zone : Text)
      → lookup zone (after ttl ws).entries ≡ latest zone ws
  unfolding new_delegation_cache set invalidate lookup
  lookup-after ttl [] zone = refl
  lookup-after ttl (stores now z a ∷ ws) zone =
      lookup-insert z zone (record { stored = a; cached_at = now }) (after ttl ws).entries
      ∙ ap
          (λ (o : Option (DelegationEntry A)).
            if z == zone then some (record { stored = a; cached_at = now }) else o)
          (lookup-after ttl ws zone)
  lookup-after ttl (invalidates ∷ ws) zone = refl

  -- The lookup of an entry, by the last time at which it is still returned.
  fresh-until :
      (now ttl : ℕ) (e : DelegationEntry A)
      → fresh now ttl e ≡ (if leb now (e.cached_at + ttl) then some e.stored else none)
  fresh-until now ttl e = ground arith

  -- After any sequence of stores and invalidations of a new cache, a lookup gives the result that
  -- was stored last for the zone since the last invalidation, up to the time that is the time to
  -- live of the cache after the store and not later, and nothing where there is no such result.
  pub get-after :
      (ttl : ℕ) (ws : List (Write A)) (now : ℕ) (zone : Text)
      → get (after ttl ws) now zone ≡ (elim (latest zone ws) [
        | none ↦ none
        | some e ↦ if leb now (e.cached_at + ttl) then some e.stored else none
      ])
  unfolding get
  get-after ttl ws now zone =
      ap
        (λ (o : Option (DelegationEntry A)). elim o [
          | none ↦ none
          | some e ↦ fresh now (after ttl ws).ttl e
        ])
        (lookup-after ttl ws zone)
      ∙ ap
          (λ (n : ℕ). elim (latest zone ws) as (λ _. Option A) [
            | none ↦ none
            | some e ↦ fresh now n e
          ])
          (after-ttl ttl ws)
      ∙ by_entry (latest zone ws)
    where
      by_entry :
          (o : Option (DelegationEntry A))
          → (elim o as (λ _. Option A) [ none ↦ none | some e ↦ fresh now ttl e ]) ≡ (elim o [
            | none ↦ none
            | some e ↦ if leb now (e.cached_at + ttl) then some e.stored else none
          ])
      by_entry none = refl
      by_entry (some e) = fresh-until now ttl e
