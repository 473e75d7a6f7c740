-- ===== src/Spf/Lookup.antt =====
-- prober/spf_lookup.go: the count of DNS lookups that an SPF record costs.
pub mod Bounds
pub mod Exact
pub mod Repeats
use dnshealth_exporter.Prelude.{
  ℕ, zero, suc, ◌+◌, Bool, true, false, not, ◌&&◌, Option, none, some, List, [], ◌∷◌, State, ◌>>=◌,
  return, if◌then◌else◌, ltb,
}
use dnshealth_exporter.Text.{Text, to_lower, trim_suffix, contains}
use dnshealth_exporter.Spf.Parse.{
  SpfMechKind, mech_other, mech_all, mech_include, mech_redirect, mech_a, mech_mx, mech_ptr,
  mech_exists, SpfMechanism, parse_spf_mechanisms,
}

abbrev pub spf_max_lookups : ℕ
spf_max_lookups = 10

abbrev pub spf_max_depth : ℕ
spf_max_depth = 20

-- spfCounter; its visited map is the list of the keys that are set.
pub record SpfCounter : Type 0 where
  pub visited : List Text
  pub count : ℕ
  pub complete : Bool

abbrev pub over : SpfCounter → Bool
over c = ltb spf_max_lookups c.count

unfoldable pub target_key : Text → Text
unfolding to_lower trim_suffix
target_key target = to_lower (trim_suffix b'.' target)

abbrev pub bump : SpfCounter → SpfCounter
bump c = record c { count = c.count + 1 }

abbrev pub incomplete : SpfCounter → SpfCounter
incomplete c = record c { complete = false }

-- A cycle, or a chain that is too deep: over budget and incomplete.
abbrev pub blown : SpfCounter → SpfCounter
blown c = record c { count = spf_max_lookups + 1; complete = false }

-- The result of countSPFLookups.
abbrev pub report : SpfCounter → ℕ × Bool
report c = (if over c then spf_max_lookups + 1 else c.count, c.complete)

-- `fetch` is the fetchSPFFunc, with whatever state it runs in.
module _ {S : Type 0} (fetch : Text → State S (Option Text)) where
  -- The rest of `recurse`, behind the fetch; `deeper` is the walk one level down.
  after_fetch :
      (Text → SpfCounter → State S SpfCounter)
      → Text
      → SpfCounter
      → Option Text
      → State S SpfCounter
  after_fetch deeper key c none = return (incomplete c)
  after_fetch deeper key c (some rec) = deeper rec (record c { visited = key ∷ c.visited })

  -- There is no `deeper` walk at the depth cap.
  recurse :
      Option (Text → SpfCounter → State S SpfCounter)
      → SpfMechanism
      → SpfCounter
      → State S SpfCounter
  unfolding after_fetch contains target_key
  recurse none m c = return (if m.has_macro then incomplete c else blown c)
  recurse (some deeper) m c =
      if m.has_macro
      then return (incomplete c)
      else if contains c.visited (target_key m.target)
      then return (blown c)
      else do rec ← fetch m.target; after_fetch deeper (target_key m.target) c rec

  -- An include or redirect: its own lookup first, and a stop if that is over budget.
  expand :
      Option (Text → SpfCounter → State S SpfCounter)
      → SpfMechanism
      → SpfCounter
      → State S SpfCounter
  unfolding recurse
  expand deeper m c = if over (bump c) then return (bump c) else recurse deeper m (bump c)

  -- The switch on the kind of a term.
  count_term :
      Option (Text → SpfCounter → State S SpfCounter)
      → Bool
      → SpfMechKind
      → SpfMechanism
      → SpfCounter
      → State S SpfCounter
  unfolding expand
  count_term deeper all' mech_a m c = return (bump c)
  count_term deeper all' mech_mx m c = return (bump c)
  count_term deeper all' mech_ptr m c = return (bump c)
  count_term deeper all' mech_exists m c = return (bump c)
  count_term deeper all' mech_include m c = expand deeper m c
  count_term deeper all' mech_redirect m c = if all' then return c else expand deeper m c
  count_term deeper all' mech_all m c = return c
  count_term deeper all' mech_other m c = return c

  -- The loop over the terms, which stops when the count is over budget.
  walk_terms :
      Option (Text → SpfCounter → State S SpfCounter)
      → Bool
      → List SpfMechanism
      → SpfCounter
      → State S SpfCounter
  unfolding count_term
  walk_terms deeper all' [] c = return c
  walk_terms deeper all' (m ∷ ms) c =
      let rest = (λ (c' : SpfCounter). walk_terms deeper all' ms c') in
      if over c then return c else (count_term deeper all' m.kind m c >>= rest)

  -- `left` is spfMaxDepth less the depth.
  walk : ℕ → Text → SpfCounter → State S SpfCounter
  unfolding walk_terms parse_spf_mechanisms
  walk zero rec c = walk_terms none (parse_spf_mechanisms rec).1 (parse_spf_mechanisms rec).0 c
  walk (suc left) rec c =
      walk_terms (some (walk left)) (parse_spf_mechanisms rec).1 (parse_spf_mechanisms rec).0 c

  unfoldable pub count_spf_lookups : Text → State S (ℕ × Bool)
  unfolding walk
  count_spf_lookups rec = do
    c ← walk spf_max_depth rec (record { visited = []; count = 0; complete = true })
    return (report c)
