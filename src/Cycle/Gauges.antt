-- ===== src/Cycle/Gauges.antt =====
-- The vectors of gauges and counters of prometheus/client_golang, as far as the runner uses them.
pub mod Laws
use dnshealth_exporter.Prelude.{
  ℕ, ◌+◌, Bool, true, false, ◌&&◌, Option, none, some, List, [], ◌∷◌, ◌≡◌, if◌then◌else◌,
}
use dnshealth_exporter.Text.{Text, ◌==◌}

-- Equal label values, in order.
unfoldable pub same_labels : List Text → List Text → Bool
unfolding ◌==◌
same_labels [] [] = true
same_labels (x ∷ xs) (y ∷ ys) = x == y && same_labels xs ys
same_labels _ _ = false

abbrev pub or_zero : Option ℕ → ℕ
or_zero none = 0
or_zero (some n) = n

-- `set` is WithLabelValues(labels…).Set, `add` the same with Add; an absent series starts at 0.
pub record VecLib : Type 1 where
  pub Vec : Type 0
  pub reset : Vec → Vec
  pub set : Vec → List Text → ℕ → Vec
  pub add : Vec → List Text → ℕ → Vec
  pub value : Vec → List Text → Option ℕ
  pub value_reset : (v : Vec) (l : List Text) → value (reset v) l ≡ none
  pub value_set :
      (v : Vec) (l k : List Text) (n : ℕ)
      → value (set v l n) k ≡ (if same_labels l k then some n else value v k)
  pub value_add :
      (v : Vec) (l k : List Text) (n : ℕ)
      → value (add v l n) k
        ≡ (if same_labels l k then some (or_zero (value v l) + n) else value v k)
