-- ===== src/Text/Maps.antt =====
-- Go maps as association lists: their keys, and lists in which no text comes twice.
use dnshealth_exporter.Prelude.{
  Bool, true, false, not, ◌&&◌, ◌||◌, none, List, [], ◌∷◌, ◌++◌, ◌≡◌, refl, arith,
}
use dnshealth_exporter.Text.{Text, ◌==◌, contains, lookup, insert}
use dnshealth_exporter.Text.Equality.{==_iff}

-- No text comes twice.
unfoldable pub is_distinct : List Text → Bool
unfolding contains
is_distinct [] = true
is_distinct (t ∷ ts) = not (contains ts t) && is_distinct ts

pub contains-append :
    (a b : List Text) (t : Text) → contains (a ++ b) t ≡ (contains a t || contains b t)
unfolding contains
contains-append [] b t = refl
contains-append (x ∷ a) b t = ground (arith, contains-append a b t)

pub is_distinct-snoc :
    (ts : List Text) (t : Text)
    → is_distinct ts ≡ true
    → contains ts t ≡ false
    → is_distinct (ts ++ t ∷ []) ≡ true
unfolding is_distinct contains
is_distinct-snoc [] t h k = refl
is_distinct-snoc (x ∷ ts) t h k =
    ground (arith, contains-append ts (t ∷ []) x, is_distinct-snoc ts t, ==_iff x t, ==_iff t x)

module _ {ℓ} {V : Type ℓ} where
  unfoldable pub map_keys : List (Text × V) → List Text
  map_keys [] = []
  map_keys ((key, v) ∷ entries) = key ∷ map_keys entries

  pub contains-map_keys-insert :
      (key other : Text) (v : V) (entries : List (Text × V))
      → contains (map_keys (insert key v entries)) other
        ≡ (key == other || contains (map_keys entries) other)
  unfolding insert contains map_keys
  contains-map_keys-insert key other v [] = refl
  contains-map_keys-insert key other v ((first, w) ∷ entries) = ground (
    arith,
    contains-map_keys-insert key other v entries,
    ==_iff first key,
    ==_iff key other,
    ==_iff first other,
  )

  pub is_distinct-map_keys-insert :
      (key : Text) (v : V) (entries : List (Text × V))
      → is_distinct (map_keys entries) ≡ true
      → is_distinct (map_keys (insert key v entries)) ≡ true
  unfolding insert is_distinct map_keys contains
  is_distinct-map_keys-insert key v [] h = refl
  is_distinct-map_keys-insert key v ((first, w) ∷ entries) h = ground (
    arith,
    is_distinct-map_keys-insert key v entries,
    contains-map_keys-insert key first v entries,
    ==_iff first key,
    ==_iff key first,
  )

  pub lookup-missing :
      (key : Text) (entries : List (Text × V))
      → contains (map_keys entries) key ≡ false
      → lookup key entries ≡ none
  unfolding lookup contains map_keys
  lookup-missing key [] h = refl
  lookup-missing key ((first, w) ∷ entries) h = ground (arith, lookup-missing key entries)
