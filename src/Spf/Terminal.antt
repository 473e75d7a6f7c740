-- ===== src/Spf/Terminal.antt =====
-- The qualifier of the last all term of an SPF record.
use dnshealth_exporter.Prelude.{Option, none, some, List, [], ◌∷◌, ◌≡◌, refl, ap, ◌∙◌, arith}
use dnshealth_exporter.Text.{Text, bytes, ◌==◌, to_lower, fields, lookup}
use dnshealth_exporter.Spf.{all_qualifier, last_qualifier, terminal_all_qualifier}

-- The all terms and what they mean.
abbrev all_terms : List (Text × Text)
all_terms =
    (bytes "all", bytes "pass")
    ∷ (bytes "+all", bytes "pass")
    ∷ (bytes "-all", bytes "fail")
    ∷ (bytes "~all", bytes "softfail")
    ∷ (bytes "?all", bytes "neutral")
    ∷ []

unfoldable pub meaning : Text → Option Text
unfolding lookup to_lower
meaning term = lookup (to_lower term) all_terms

abbrev pub or_before : Option Text → Text → Text
or_before none before = before
or_before (some q) before = q

abbrev pub or_else : Option Text → Option Text → Option Text
or_else (some q) o = some q
or_else none o = o

-- The meaning of the last term that is an all term.
abbrev pub last_meaning : List Text → Option Text
last_meaning [] = none
last_meaning (f ∷ fs) = or_else (last_meaning fs) (meaning f)

==_comm : (s t : Text) → (s == t) ≡ (t == s)
unfolding ◌==◌
==_comm [] [] = refl
==_comm [] (y ∷ t) = refl
==_comm (x ∷ s) [] = refl
==_comm (x ∷ s) (y ∷ t) = ground (arith, ==_comm s t)

all_qualifier-lookup :
    (low before : Text) → all_qualifier low before ≡ or_before (lookup low all_terms) before
unfolding all_qualifier lookup
all_qualifier-lookup low before = ground (
  arith,
  ==_comm low (bytes "all"),
  ==_comm low (bytes "+all"),
  ==_comm low (bytes "-all"),
  ==_comm low (bytes "~all"),
  ==_comm low (bytes "?all"),
)

or_before-or_else :
    (a b : Option Text) (q : Text) → or_before a (or_before b q) ≡ or_before (or_else a b) q
or_before-or_else none b q = refl
or_before-or_else (some x) b q = refl

last_qualifier-meaning :
    (fs : List Text) (q : Text) → last_qualifier q fs ≡ or_before (last_meaning fs) q
unfolding last_qualifier meaning
last_qualifier-meaning [] q = refl
last_qualifier-meaning (f ∷ fs) q =
    last_qualifier-meaning fs (all_qualifier (to_lower f) q)
    ∙ ap (or_before (last_meaning fs)) (all_qualifier-lookup (to_lower f) q)
    ∙ or_before-or_else (last_meaning fs) (meaning f) q

-- The qualifier that is reported of a record is the meaning of the last of its terms that is an all
-- term with or without a qualifier, in either case, and "none" if it has no such term.
pub terminal_all_qualifier-meaning :
    (rec : Text) → terminal_all_qualifier rec ≡ or_before (last_meaning (fields rec)) (bytes "none")
unfolding terminal_all_qualifier
terminal_all_qualifier-meaning rec = last_qualifier-meaning (fields rec) (bytes "none")
