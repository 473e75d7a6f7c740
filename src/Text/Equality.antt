-- ===== src/Text/Equality.antt =====
-- Equality of texts, and the laws of lookups in maps keyed by texts.
use dnshealth_exporter.Prelude.{
  true, some, List, [], ◌∷◌, ◌≡◌, refl, ◌∙◌, ◌↔◌, arith, if◌then◌else◌,
}
use dnshealth_exporter.Text.{Text, ◌==◌, lookup, insert}

pub ==_iff : (a b : Text) → ((a == b) ≡ true) ↔ (a ≡ b)
unfolding ◌==◌
==_iff [] [] = ground arith
==_iff [] (y ∷ b) = ground arith
==_iff (x ∷ a) [] = ground arith
==_iff (x ∷ a) (y ∷ b) = ground (arith, ==_iff a b)

pub ==_refl : (a : Text) → (a == a) ≡ true
==_refl a = (==_iff a a).1 refl

-- An assignment changes what is found under its key, and nothing else.
pub lookup-insert {ℓ} :
    {V : Type ℓ} (key other : Text) (value : V) (entries : List (Text × V))
    → lookup other (insert key value entries)
      ≡ (if key == other then some value else lookup other entries)
unfolding lookup insert
lookup-insert key other value [] = refl
lookup-insert key other value ((first, old) ∷ entries) = ground (
  arith,
  lookup-insert key other value entries,
  ==_iff first key,
  ==_iff first other,
  ==_iff key other,
)

pub lookup-insert_self {ℓ} :
    {V : Type ℓ} (key : Text) (value : V) (entries : List (Text × V))
    → lookup key (insert key value entries) ≡ some value
lookup-insert_self key value entries = lookup-insert key key value entries ∙ rw (==_refl key) refl
