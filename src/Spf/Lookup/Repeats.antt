-- ===== src/Spf/Lookup/Repeats.antt =====
-- A record that includes the same name twice.
use dnshealth_exporter.Prelude.{
  ℕ, zero, suc, ◌+◌, ◌&&◌, Bool, true, false, Option, none, some, List, [], ◌∷◌, ◌≡◌, refl, ap, ◌∙◌,
}
use dnshealth_exporter.Text.{Text, contains}
use dnshealth_exporter.Text.Equality.{==_refl}
use dnshealth_exporter.Spf.Parse.{SpfMechanism, mech_include, parse_spf_mechanisms}
use dnshealth_exporter.Spf.Lookup.{
  SpfCounter, target_key, recurse, expand, count_term, walk_terms, walk, report, count_spf_lookups,
  after_fetch,
}
use dnshealth_exporter.Spf.Lookup.Exact.{
  fetch_published, sub_tree, expanded_cost, term_cost, terms_cost, tree_cost,
}

abbrev pub includes : Text → SpfMechanism
includes t = record { kind = mech_include; target = t; has_macro = false }

abbrev start_counter : SpfCounter
start_counter = record { visited = []; count = 0; complete = true }

-- The counter behind the first of the two.
abbrev seen_once : Text → SpfCounter
seen_once t = record { visited = target_key t ∷ []; count = 1; complete = true }

module _ (published : Text → Option Text) where
  -- A record without terms leaves the counter as it is.
  leaf-keeps :
      (left : ℕ) (leaf : Text) (all' : Bool) (c : SpfCounter)
      → parse_spf_mechanisms leaf ≡ ([], all')
      → (walk (fetch_published published) left leaf c tt).0 ≡ c
  unfolding walk walk_terms
  leaf-keeps zero leaf all' c e =
      ap
        (λ (q : List SpfMechanism × Bool).
          (walk_terms (fetch_published published) none q.1 q.0 c tt).0)
        e
  leaf-keeps (suc left) leaf all' c e =
      ap
        (λ (q : List SpfMechanism × Bool).
          (walk_terms (fetch_published published) (some (walk (fetch_published published) left)) q.1
            q.0 c tt).0)
        e

  first_include :
      (left : ℕ) (leaf t : Text) (all' : Bool)
      → published t ≡ some leaf
      → parse_spf_mechanisms leaf ≡ ([], all')
      → (expand
          (fetch_published published)
          (some (walk (fetch_published published) left))
          (includes t)
          start_counter
          tt).0
        ≡ seen_once t
  unfolding expand recurse after_fetch contains
  first_include left leaf t all' p e =
      ap
        (λ (o : Option Text).
          (after_fetch (fetch_published published) (walk (fetch_published published) left)
            (target_key t) (record { visited = []; count = 1; complete = true }) o tt).0)
        p
      ∙ leaf-keeps left leaf all' (seen_once t) e

  second_include :
      (left : ℕ) (t : Text)
      → (walk_terms
          (fetch_published published)
          (some (walk (fetch_published published) left))
          false
          (includes t ∷ [])
          (seen_once t)
          tt).0
        ≡ record { visited = target_key t ∷ []; count = 11; complete = false }
  unfolding walk_terms count_term expand recurse contains
  second_include left t = rw (==_refl (target_key t)) refl

  leaf-cost :
      (left : ℕ) (leaf : Text) (all' : Bool)
      → parse_spf_mechanisms leaf ≡ ([], all')
      → tree_cost published left leaf ≡ (0, true)
  unfolding tree_cost terms_cost
  leaf-cost zero leaf all' e =
      ap (λ (q : List SpfMechanism × Bool). terms_cost published none q.1 q.0) e
  leaf-cost (suc left) leaf all' e =
      ap
        (λ (q : List SpfMechanism × Bool).
          terms_cost published (some (tree_cost published left)) q.1 q.0)
        e

  -- If a record consists of two includes of one name, and the record of that name has no terms, the
  -- count reports eleven lookups and an incomplete evaluation, as it does for a cycle; the tree of
  -- included records has two lookups, and all of it can be followed.
  pub count_spf_lookups_repeats :
      (rec leaf t : Text) (all' : Bool)
      → parse_spf_mechanisms rec ≡ (includes t ∷ includes t ∷ [], false)
      → published t ≡ some leaf
      → parse_spf_mechanisms leaf ≡ ([], all')
      → ((count_spf_lookups (fetch_published published) rec tt).0 ≡ (11, false))
        × (tree_cost published 20 rec ≡ (2, true))
  unfolding count_spf_lookups walk walk_terms count_term tree_cost terms_cost term_cost
      expanded_cost
  count_spf_lookups_repeats rec leaf t all' r p e =
      let deeper = walk (fetch_published published) 19 in
      (
        ap
              (λ (q : List SpfMechanism × Bool).
                report
                  (walk_terms (fetch_published published) (some deeper) q.1 q.0 start_counter tt).0)
              r
            ∙ ap
                (λ (c : SpfCounter).
                  report
                    (walk_terms (fetch_published published) (some deeper) false (includes t ∷ []) c
                      tt).0)
                (first_include 19 leaf t all' p e)
            ∙ ap report (second_include 19 t),
        ap
              (λ (q : List SpfMechanism × Bool).
                terms_cost published (some (tree_cost published 19)) q.1 q.0)
              r
            ∙ ap
                (λ (o : Option Text).
                  both_terms (sub_tree published (some (tree_cost published 19)) o))
                p
            ∙ ap both_terms (leaf-cost 19 leaf all' e),
      )
    where
      both_terms : ℕ × Bool → ℕ × Bool
      both_terms x = ((1 + x.0) + ((1 + x.0) + 0), x.1 && (x.1 && true))
