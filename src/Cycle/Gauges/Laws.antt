-- ===== src/Cycle/Gauges/Laws.antt =====
-- Equal label values, and what a write leaves in a vector.
use dnshealth_exporter.Prelude.{ℕ, true, some, List, [], ◌∷◌, ◌≡◌, refl, arith}
use dnshealth_exporter.Text.{Text}
use dnshealth_exporter.Text.Equality.{==_refl}
use dnshealth_exporter.Cycle.Gauges.{VecLib, same_labels}

pub same_labels_refl : (l : List Text) → same_labels l l ≡ true
unfolding same_labels
same_labels_refl [] = refl
same_labels_refl (x ∷ xs) = ground (arith, ==_refl x, same_labels_refl xs)

module _ (lib : VecLib) where
  open lib use {Vec, set, value}

  pub value-set_self : (v : Vec) (l : List Text) (n : ℕ) → value (set v l n) l ≡ some n
  value-set_self v l n = ground (arith, lib.value_set v l l n, same_labels_refl l)

  -- A write of what a series holds already.
  pub value-set_same :
      (v : Vec) (k l : List Text) (n : ℕ) → value v l ≡ some n → value (set v k n) l ≡ some n
  value-set_same v k l n e = ground (arith, e, lib.value_set v k l n)
