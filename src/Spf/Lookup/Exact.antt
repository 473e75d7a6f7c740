-- ===== src/Spf/Lookup/Exact.antt =====
-- The counter of SPF lookups against a plain recursion over the tree of included records, which
-- never stops early and remembers nothing.
use dnshealth_exporter.Prelude.{
  ℕ, zero, suc, ◌+◌, ◌≤◌, Bool, true, false, ◌&&◌, Option, none, some, List, [], ◌∷◌, State, ap,
  if◌then◌else◌, arith, ◌≡◌, inl, inr, Bool-cases, Option-cases, refl,
}
use dnshealth_exporter.Text.{Text}
use dnshealth_exporter.Spf.Parse.{
  SpfMechKind, mech_other, mech_all, mech_include, mech_redirect, mech_a, mech_mx, mech_ptr,
  mech_exists, SpfMechanism, parse_spf_mechanisms,
}
use dnshealth_exporter.Spf.Lookup.{
  SpfCounter, target_key, recurse, expand, count_term, walk_terms, walk, count_spf_lookups, over,
  bump, after_fetch,
}

&&_assoc : (a b c : Bool) → ((a && b) && c) ≡ (a && (b && c))
&&_assoc a b c = ground arith

-- The published SPF records, by name.
module _ (published : Text → Option Text) where
  abbrev pub fetch_published : Text → State (Unit {0}) (Option Text)
  fetch_published t s = (published t, s)

  -- The lookups of a term, and whether all that it names could be followed.
  abbrev pub sub_tree : Option (Text → ℕ × Bool) → Option Text → ℕ × Bool
  sub_tree none rec = (0, false)
  sub_tree (some tree) none = (0, false)
  sub_tree (some tree) (some rec) = tree rec

  unfoldable pub expanded_cost : Option (Text → ℕ × Bool) → SpfMechanism → ℕ × Bool
  expanded_cost tree m =
      if m.has_macro
      then (1, false)
      else (1 + (sub_tree tree (published m.target)).0, (sub_tree tree (published m.target)).1)

  unfoldable pub term_cost : Option (Text → ℕ × Bool) → Bool → SpfMechKind → SpfMechanism → ℕ × Bool
  unfolding expanded_cost
  term_cost tree all' mech_a m = (1, true)
  term_cost tree all' mech_mx m = (1, true)
  term_cost tree all' mech_ptr m = (1, true)
  term_cost tree all' mech_exists m = (1, true)
  term_cost tree all' mech_include m = expanded_cost tree m
  term_cost tree all' mech_redirect m = if all' then (0, true) else expanded_cost tree m
  term_cost tree all' mech_all m = (0, true)
  term_cost tree all' mech_other m = (0, true)

  unfoldable pub terms_cost : Option (Text → ℕ × Bool) → Bool → List SpfMechanism → ℕ × Bool
  unfolding term_cost
  terms_cost tree all' [] = (0, true)
  terms_cost tree all' (m ∷ ms) = (
    (term_cost tree all' m.kind m).0 + (terms_cost tree all' ms).0,
    (term_cost tree all' m.kind m).1 && (terms_cost tree all' ms).1,
  )

  -- The tree down to a depth.
  unfoldable pub tree_cost : ℕ → Text → ℕ × Bool
  unfolding terms_cost parse_spf_mechanisms
  tree_cost zero rec = terms_cost none (parse_spf_mechanisms rec).1 (parse_spf_mechanisms rec).0
  tree_cost (suc left) rec =
      terms_cost (some (tree_cost left)) (parse_spf_mechanisms rec).1 (parse_spf_mechanisms rec).0

  -- A result that is in budget adds the cost to the count.
  abbrev Adds : SpfCounter → ℕ × Bool → SpfCounter → Type 0
  Adds c n r = over r ≡ false → (r.count ≡ c.count + n.0) × (r.complete ≡ (c.complete && n.1))

  -- Two steps, where the second does nothing once the budget is blown.
  Adds-trans :
      (c r t : SpfCounter) (n k : ℕ × Bool)
      → Adds c n r
      → Adds r k t
      → (over r ≡ true → t ≡ r)
      → Adds c (n.0 + k.0, n.1 && k.1) t
  Adds-trans c r t n k first second stop e = elim (Bool-cases (over r)) [
    | inl full ↦ cc (full, e, ap over (stop full))
    | inr room ↦ ground (arith, first room, second e, &&_assoc c.complete n.1 k.1)
  ]

  abbrev AddsAll :
      Option (Text → SpfCounter → State (Unit {0}) SpfCounter) → Option (Text → ℕ × Bool) → Type 0
  AddsAll none none = Unit
  AddsAll (some deeper) (some tree) =
      (rec : Text) (c : SpfCounter) → Adds c (tree rec) (deeper rec c tt).0
  AddsAll _ _ = ⊥

  fetched-Adds :
      (deeper : Text → SpfCounter → State (Unit {0}) SpfCounter) (tree : Text → ℕ × Bool)
      (m : SpfMechanism) (c : SpfCounter)
      → AddsAll (some deeper) (some tree)
      → Adds c
          (sub_tree (some tree) (published m.target))
          (after_fetch fetch_published deeper (target_key m.target) c (published m.target) tt).0
  unfolding after_fetch
  fetched-Adds deeper tree m c h = elim (Option-cases (published m.target)) [
    | inl e ↦ rw e (ground arith)
    | inr (rec, e) ↦ rw e (h rec (record c { visited = target_key m.target ∷ c.visited }))
  ]

  expand-Adds :
      (deeper : Option (Text → SpfCounter → State (Unit {0}) SpfCounter))
      (tree : Option (Text → ℕ × Bool)) (m : SpfMechanism) (c : SpfCounter)
      → AddsAll deeper tree
      → Adds c (expanded_cost tree m) (expand fetch_published deeper m c tt).0
  unfolding expand expanded_cost recurse
  expand-Adds none none m c h = ground arith
  expand-Adds (some deeper) (some tree) m c h =
      ground (arith, fetched-Adds deeper tree m (bump c) h)
  expand-Adds (some deeper) none m c h = absurd h
  expand-Adds none (some tree) m c h = absurd h

  count_term-Adds :
      (deeper : Option (Text → SpfCounter → State (Unit {0}) SpfCounter))
      (tree : Option (Text → ℕ × Bool)) (a' : Bool) (k : SpfMechKind) (m : SpfMechanism)
      (c : SpfCounter)
      → AddsAll deeper tree
      → Adds c (term_cost tree a' k m) (count_term fetch_published deeper a' k m c tt).0
  unfolding count_term term_cost
  count_term-Adds deeper tree a' mech_include m c h = expand-Adds deeper tree m c h
  count_term-Adds deeper tree a' mech_redirect m c h = ground (arith, expand-Adds deeper tree m c h)
  count_term-Adds deeper tree a' _ m c h = ground arith

  walk_terms-over :
      (deeper : Option (Text → SpfCounter → State (Unit {0}) SpfCounter)) (a' : Bool)
      (ms : List SpfMechanism) (c : SpfCounter)
      → over c ≡ true
      → (walk_terms fetch_published deeper a' ms c tt).0 ≡ c
  unfolding walk_terms
  walk_terms-over deeper a' [] c h = refl
  walk_terms-over deeper a' (m ∷ ms) c h = rw h

  walk_terms-Adds :
      (deeper : Option (Text → SpfCounter → State (Unit {0}) SpfCounter))
      (tree : Option (Text → ℕ × Bool)) (a' : Bool) (ms : List SpfMechanism) (c : SpfCounter)
      → AddsAll deeper tree
      → Adds c (terms_cost tree a' ms) (walk_terms fetch_published deeper a' ms c tt).0
  unfolding walk_terms terms_cost
  walk_terms-Adds deeper tree a' [] c h = ground arith
  walk_terms-Adds deeper tree a' (m ∷ ms) c h = elim (Bool-cases (over c)) [
    | inl full ↦ rw full (λ k. cc)
    | inr room ↦ rw room (
        Adds-trans c _ _ _ _ (count_term-Adds deeper tree a' m.kind m c h)
          (walk_terms-Adds deeper tree a' ms _ h) (walk_terms-over deeper a' ms _))
  ]

  walk-Adds :
      (left : ℕ) (rec : Text) (c : SpfCounter)
      → Adds c (tree_cost left rec) (walk fetch_published left rec c tt).0
  unfolding walk tree_cost
  walk-Adds zero rec c = walk_terms-Adds none none _ _ c tt
  walk-Adds (suc left) rec c =
      walk_terms-Adds (some (walk fetch_published left)) (some (tree_cost left)) _ _ c
        (walk-Adds left)

-- A reported count of at most ten is exact: count and completeness are those of the whole tree of
-- included records (20 levels deep), counted with no early stop and no memory of what was seen.
pub count_spf_lookups_exact :
    (published : Text → Option Text) (rec : Text)
    → (count_spf_lookups (fetch_published published) rec tt).0.0 ≤ 10
    → (count_spf_lookups (fetch_published published) rec tt).0 ≡ tree_cost published 20 rec
unfolding count_spf_lookups
count_spf_lookups_exact published rec h =
    ground (arith, walk-Adds published 20 rec (record { visited = []; count = 0; complete = true }))
