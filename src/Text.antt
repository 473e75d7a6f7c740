-- ===== src/Text.antt =====
-- Go strings as lists of bytes, with the functions of package strings, fmt and strconv that the
-- exporter calls. Case folding and white space are those of ASCII.
pub mod Equality
pub mod Maps
pub mod Pad
pub mod Splitting
pub mod Decimal
use Prim.Native.Char.{code}
use Prim.Native.String.{String}
use dnshealth_exporter.Prelude.{
  ℕ, suc, ◌+◌, ◌-◌, ◌*◌, ◌/◌, ◌%◌, Bool, true, false, not, ◌&&◌, ◌||◌, Option, none, some, List, [],
  ◌∷◌, ◌++◌, ltb, leb, eqb, if◌then◌else◌, any, is_nil,
}

abbrev pub Text : Type 0
Text = List ℕ

-- The bytes of a literal.
abbrev pub bytes : String → Text
bytes String.[] = []
bytes (String.◌∷◌ c s) = code c ∷ bytes s

infix 50 ◌==◌
unfoldable pub ◌==◌ : Text → Text → Bool
[] == [] = true
(x ∷ xs) == (y ∷ ys) = eqb x y && xs == ys
_ == _ = false

-- slices.Contains, and the membership test of a map from texts to booleans.
unfoldable pub contains : List Text → Text → Bool
unfolding ◌==◌
contains [] t = false
contains (x ∷ xs) t = x == t || contains xs t

-- A Go map as an association list: the first pair of a key holds its value.
unfoldable pub lookup {ℓ} : {V : Type ℓ} → Text → List (Text × V) → Option V
unfolding ◌==◌
lookup key [] = none
lookup key ((first, value) ∷ others) = if first == key then some value else lookup key others

-- An assignment: the value of a key that is there is replaced, and a new key comes last.
unfoldable pub insert {ℓ} : {V : Type ℓ} → Text → V → List (Text × V) → List (Text × V)
unfolding ◌==◌
insert key value [] = (key, value) ∷ []
insert key value ((first, old) ∷ others) =
    if first == key then (key, value) ∷ others else (first, old) ∷ insert key value others

abbrev pub is_upper : ℕ → Bool
is_upper c = leb b'A' c && leb c b'Z'

abbrev pub is_space : ℕ → Bool
is_space c = (leb 9 c && leb c 13) || eqb c b' '

abbrev pub lower : ℕ → ℕ
lower c = if is_upper c then c + 32 else c

-- strings.ToLower
unfoldable pub to_lower : Text → Text
to_lower [] = []
to_lower (c ∷ cs) = lower c ∷ to_lower cs

-- strings.EqualFold
unfoldable pub equal_fold : Text → Text → Bool
unfolding ◌==◌ to_lower
equal_fold a b = to_lower a == to_lower b

-- strings.HasPrefix
unfoldable pub has_prefix : Text → Text → Bool
has_prefix s [] = true
has_prefix [] (p ∷ ps) = false
has_prefix (c ∷ cs) (p ∷ ps) = eqb c p && has_prefix cs ps

-- s[n:], which the callers guard by a length or a prefix.
unfoldable pub drop : ℕ → Text → Text
drop n [] = []
drop ℕ.zero (c ∷ cs) = c ∷ cs
drop (suc n) (c ∷ cs) = drop n cs

unfoldable pub take : ℕ → Text → Text
take n [] = []
take ℕ.zero (c ∷ cs) = []
take (suc n) (c ∷ cs) = c ∷ take n cs

-- strings.Contains
unfoldable pub contains_text : Text → Text → Bool
unfolding has_prefix
contains_text [] sub = has_prefix [] sub
contains_text (c ∷ cs) sub = has_prefix (c ∷ cs) sub || contains_text cs sub

unfoldable pub trim_left : Text → Text
trim_left [] = []
trim_left (c ∷ cs) = if is_space c then trim_left cs else c ∷ cs

abbrev pub cons_trimmed : ℕ → Text → Text
cons_trimmed c rest = if is_space c && is_nil rest then [] else c ∷ rest

unfoldable pub trim_right : Text → Text
trim_right [] = []
trim_right (c ∷ cs) = cons_trimmed c (trim_right cs)

-- strings.TrimSpace
unfoldable pub trim_space : Text → Text
unfolding trim_left trim_right
trim_space s = trim_right (trim_left s)

-- strings.TrimSuffix(s, "."), for a suffix of one byte.
unfoldable pub trim_suffix : ℕ → Text → Text
trim_suffix b [] = []
trim_suffix b (c ∷ []) = if eqb c b then [] else c ∷ []
trim_suffix b (c ∷ d ∷ cs) = c ∷ trim_suffix b (d ∷ cs)

abbrev pub cons_head : ℕ → List Text → List Text
cons_head c [] = (c ∷ []) ∷ []
cons_head c (p ∷ ps) = (c ∷ p) ∷ ps

-- strings.Split(s, sep), for a separator of one byte.
unfoldable pub split : ℕ → Text → List Text
split sep [] = [] ∷ []
split sep (c ∷ cs) = if eqb c sep then [] ∷ split sep cs else cons_head c (split sep cs)

-- strings.SplitN(s, sep, 2): none where the separator does not occur.
unfoldable pub split2 : ℕ → Text → Option (Text × Text)
split2 sep [] = none
split2 sep (c ∷ cs) =
    if eqb c sep
    then some ([], cs)
    else elim (split2 sep cs) [ none ↦ none | some (a, b) ↦ some (c ∷ a, b) ]

-- strings.Join
unfoldable pub join : Text → List Text → Text
join sep [] = []
join sep (p ∷ []) = p
join sep (p ∷ q ∷ ps) = p ++ (sep ++ join sep (q ∷ ps))

-- strings.Join(parts, "")
unfoldable pub concat : List Text → Text
concat [] = []
concat (p ∷ ps) = p ++ concat ps

-- strings.Fields; `cur` is the field read so far, back to front.
abbrev pub close_field : Text → List Text → List Text
close_field [] fs = fs
close_field (c ∷ cs) fs = (c ∷ cs) ∷ fs

unfoldable pub fields_from : Text → Text → List Text
fields_from cur [] = close_field cur []
fields_from cur (c ∷ cs) =
    let closed = close_field cur (fields_from [] cs) in
    let longer = fields_from (cur ++ c ∷ []) cs in if is_space c then closed else longer

unfoldable pub fields : Text → List Text
unfolding fields_from
fields s = fields_from [] s

-- a < b on strings: byte by byte, a proper prefix first.
unfoldable pub text_ltb : Text → Text → Bool
text_ltb [] [] = false
text_ltb [] (y ∷ ys) = true
text_ltb (x ∷ xs) [] = false
text_ltb (x ∷ xs) (y ∷ ys) = if eqb x y then text_ltb xs ys else ltb x y

-- sort.Strings, as an insertion sort.
unfoldable pub insert_sorted : Text → List Text → List Text
unfolding text_ltb
insert_sorted t [] = t ∷ []
insert_sorted t (x ∷ xs) = if text_ltb x t then x ∷ insert_sorted t xs else t ∷ x ∷ xs

unfoldable pub sort : List Text → List Text
unfolding insert_sorted
sort [] = []
sort (x ∷ xs) = insert_sorted x (sort xs)
