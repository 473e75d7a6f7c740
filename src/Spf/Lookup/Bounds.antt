-- ===== src/Spf/Lookup/Bounds.antt =====
-- The fetches of one SPF evaluation, bounded by its lookup budget.
use native.Mathlib.Nat.{mul-le-mul_left}
use dnshealth_exporter.Prelude.{
  ℕ, zero, suc, ◌+◌, ◌*◌, ◌≤◌, Bool, true, Option, none, some, List, [], ◌∷◌, State, if◌then◌else◌,
  leb, arith, inl, inr, Bool-cases, Option-cases, leb→le,
}
use dnshealth_exporter.Text.{Text, contains}
use dnshealth_exporter.Spf.Parse.{SpfMechKind, mech_include, mech_redirect, SpfMechanism}
use dnshealth_exporter.Spf.Lookup.{
  SpfCounter, target_key, recurse, expand, count_term, walk_terms, walk, count_spf_lookups, over,
  bump, after_fetch,
}

module _ {S : Type 0} (fetch : Text → State S (Option Text)) (cost : S → ℕ) (k : ℕ)
    (fetch_cost : (t : Text) (s : S) → cost (fetch t s).1 ≤ cost s + k) (start : ℕ) where
  -- What the count so far pays for.
  abbrev paid : ℕ → ℕ
  paid n = if leb n 10 then k * n else k * 10

  abbrev InBudget : SpfCounter × S → Type 0
  InBudget r = cost r.1 ≤ start + paid r.0.count

  abbrev Keeps : (SpfCounter → State S SpfCounter) → Type 0
  Keeps f = (c : SpfCounter) (s : S) → InBudget (c, s) → InBudget (f c s)

  abbrev KeepsAll : Option (Text → SpfCounter → State S SpfCounter) → Type 0
  KeepsAll none = Unit
  KeepsAll (some deeper) = (rec : Text) → Keeps (deeper rec)

  bump-Keeps : (c : SpfCounter) (s : S) → InBudget (c, s) → InBudget (bump c, s)
  bump-Keeps c s h = ground arith

  paid-le : (n : ℕ) → paid n ≤ k * 10
  paid-le n = elim (Bool-cases (leb n 10)) [
    | inl e ↦ rw e (mul-le-mul_left k (leb→le n 10 e))
    | inr e ↦ rw e (omega arith)
  ]

  fetched-InBudget :
      (deeper : Text → SpfCounter → State S SpfCounter) (m : SpfMechanism) (c : SpfCounter) (s : S)
      → ((rec : Text) → Keeps (deeper rec))
      → cost s + k ≤ start + paid c.count
      → InBudget (
          after_fetch fetch deeper
            (target_key m.target)
            c
            (fetch m.target s).0
            (fetch m.target s).1)
  unfolding after_fetch
  fetched-InBudget deeper m c s h p = elim (Option-cases (fetch m.target s).0) [
    | inl e ↦ rw e (omega (arith, fetch_cost m.target s))
    | inr (rec, e) ↦ rw e (h rec _ (fetch m.target s).1 (omega (arith, fetch_cost m.target s)))
  ]

  -- A fetch is paid by the lookup that was counted just before it.
  recurse-InBudget :
      (deeper : Option (Text → SpfCounter → State S SpfCounter)) (m : SpfMechanism) (c : SpfCounter)
      (s : S)
      → KeepsAll deeper
      → cost s + k ≤ start + paid c.count
      → InBudget (recurse fetch deeper m c s)
  unfolding recurse
  recurse-InBudget none m c s h p = elim (Bool-cases m.has_macro) [
    | inl e ↦ rw e (omega arith)
    | inr e ↦ rw e (omega (arith, paid-le c.count))
  ]
  recurse-InBudget (some deeper) m c s h p = elim (Bool-cases m.has_macro) [
    | inl e ↦ rw e (omega arith)
    | inr e ↦ elim (Bool-cases (contains c.visited (target_key m.target))) [
      | inl seen ↦ rw (e, seen) (omega (arith, paid-le c.count))
      | inr fresh ↦ rw (e, fresh) (fetched-InBudget deeper m c s h p)
    ]
  ]

  expand-InBudget :
      (deeper : Option (Text → SpfCounter → State S SpfCounter)) (m : SpfMechanism)
      → KeepsAll deeper
      → Keeps (expand fetch deeper m)
  unfolding expand
  expand-InBudget deeper m h c s p = elim (Bool-cases (over (bump c))) [
    | inl e ↦ rw e (bump-Keeps c s p)
    | inr e ↦ rw e (recurse-InBudget deeper m (bump c) s h (ground arith))
  ]

  count_term-InBudget :
      (deeper : Option (Text → SpfCounter → State S SpfCounter)) (a' : Bool) (kind : SpfMechKind)
      (m : SpfMechanism)
      → KeepsAll deeper
      → Keeps (count_term fetch deeper a' kind m)
  unfolding count_term
  count_term-InBudget deeper a' mech_include m h c s p = expand-InBudget deeper m h c s p
  count_term-InBudget deeper a' mech_redirect m h c s p =
      ground (arith, expand-InBudget deeper m h c s)
  count_term-InBudget deeper a' _ m h c s p = ground arith

  walk_terms-InBudget :
      (deeper : Option (Text → SpfCounter → State S SpfCounter)) (a' : Bool)
      (ms : List SpfMechanism)
      → KeepsAll deeper
      → Keeps (walk_terms fetch deeper a' ms)
  unfolding walk_terms
  walk_terms-InBudget deeper a' [] h c s p = p
  walk_terms-InBudget deeper a' (m ∷ ms) h c s p = elim (Bool-cases (over c)) [
    | inl e ↦ rw e p
    | inr e ↦
        rw e
          (walk_terms-InBudget deeper a' ms h _ _ (count_term-InBudget deeper a' m.kind m h c s p))
  ]

  walk-InBudget : (left : ℕ) (rec : Text) → Keeps (walk fetch left rec)
  unfolding walk
  walk-InBudget zero rec c s p = walk_terms-InBudget none _ _ tt c s p
  walk-InBudget (suc left) rec c s p =
      walk_terms-InBudget (some (walk fetch left)) _ _ (walk-InBudget left) c s p

-- Evaluating an SPF record fetches at most ten other records: what the fetches cost together is at
-- most ten times what one may cost, whatever the records say and however they include one another.
pub count_spf_lookups_fetches :
    {S : Type 0} (fetch : Text → State S (Option Text)) (cost : S → ℕ) (k : ℕ)
    → ((t : Text) (s : S) → cost (fetch t s).1 ≤ cost s + k)
    → (rec : Text) (s : S) → cost (count_spf_lookups fetch rec s).1 ≤ cost s + 10 * k
unfolding count_spf_lookups
count_spf_lookups_fetches fetch cost k fetch_cost rec s =
    let c0 : SpfCounter = record { visited = []; count = 0; complete = true } in
    omega (
      arith,
      walk-InBudget fetch cost k fetch_cost (cost s) 20 rec c0 s (omega arith),
      paid-le fetch cost k fetch_cost (cost s) (walk fetch 20 rec c0 s).0.count,
    )
