-- ===== src/Spf.antt =====
-- prober/spf.go: selection and parsing of SPF records.
pub mod Parse
pub mod Terminal
pub mod Lookup
pub mod Resolve
use dnshealth_exporter.Prelude.{
  ℕ, suc, Bool, true, false, not, ◌&&◌, ◌||◌, List, [], ◌∷◌, ◌++◌, if◌then◌else◌, length, is_nil,
  leb, eqb, ltb,
}
use dnshealth_exporter.Text.{
  Text, bytes, ◌==◌, to_lower, equal_fold, trim_space, fields, has_prefix, drop, take,
  contains_text,
}

pub record SpfResult : Type 0 where
  pub present : Bool
  pub record_count : ℕ
  pub valid : Bool
  pub qualifier : Text
  pub raw : Text
  pub records : List Text

-- What may stand behind a version token: nothing, or one of the bytes of the second argument.
unfoldable pub ends_token : Text → List ℕ → Bool
ends_token [] closers = true
ends_token (c ∷ cs) [] = false
ends_token (c ∷ cs) (d ∷ ds) = eqb c d || ends_token (c ∷ cs) ds

-- A text that begins with a version token, in either case, and is trimmed.
unfoldable pub has_version : Text → List ℕ → Text → Bool
unfolding equal_fold take drop ends_token
has_version token closers r =
    if ltb (length r) (length token)
    then false
    else equal_fold (take (length token) r) token && ends_token (drop (length token) r) closers

unfoldable pub is_spf_record : Text → Bool
unfolding has_version trim_space
is_spf_record record' = has_version (bytes "v=spf1") (b' ' ∷ b'\t' ∷ []) (trim_space record')

-- strings.ContainsRune("+-~?", rune(b))
abbrev pub is_qualifier : ℕ → Bool
is_qualifier c = eqb c b'+' || eqb c b'-' || eqb c b'~' || eqb c b'?'

-- The qualifier that an `all` term sets, and the one before for any other term.
unfoldable pub all_qualifier : Text → Text → Text
unfolding ◌==◌
all_qualifier f before =
    if f == bytes "all" || f == bytes "+all"
    then bytes "pass"
    else if f == bytes "-all"
    then bytes "fail"
    else if f == bytes "~all"
    then bytes "softfail"
    else if f == bytes "?all"
    then bytes "neutral"
    else before

unfoldable pub last_qualifier : Text → List Text → Text
unfolding all_qualifier to_lower
last_qualifier q [] = q
last_qualifier q (f ∷ fs) = last_qualifier (all_qualifier (to_lower f) q) fs

unfoldable pub terminal_all_qualifier : Text → Text
unfolding last_qualifier fields
terminal_all_qualifier record' = last_qualifier (bytes "none") (fields record')

-- A term without its leading qualifier.
abbrev pub body_of : Text → Text
body_of [] = []
body_of (c ∷ cs) = if is_qualifier c then cs else c ∷ cs

-- A bare qualifier, or an include or redirect with no target.
unfoldable pub is_broken : Text → Bool
unfolding to_lower ◌==◌
is_broken f =
    is_nil (body_of f)
    || to_lower (body_of f) == bytes "include:"
    || to_lower (body_of f) == bytes "redirect="

unfoldable pub any_broken : List Text → Bool
unfolding is_broken
any_broken [] = false
any_broken (f ∷ fs) = is_broken f || any_broken fs

-- The first field is the version token.
abbrev pub malformed_fields : List Text → Bool
malformed_fields [] = true
malformed_fields (f ∷ fs) = any_broken fs

unfoldable pub spf_malformed : Text → Bool
unfolding any_broken fields
spf_malformed record' = malformed_fields (fields record')

-- The records that are SPF records, trimmed.
unfoldable pub select_spf : List Text → List Text
unfolding is_spf_record trim_space
select_spf [] = []
select_spf (r ∷ rs) = if is_spf_record r then trim_space r ∷ select_spf rs else select_spf rs

unfoldable pub classify_spf : List Text → SpfResult
unfolding spf_malformed terminal_all_qualifier
classify_spf [] = record {
  present = false;
  record_count = 0;
  valid = false;
  qualifier = [];
  raw = [];
  records = [];
}
classify_spf (r ∷ []) = record {
  present = true;
  record_count = 1;
  valid = not (spf_malformed r);
  qualifier = terminal_all_qualifier r;
  raw = r;
  records = r ∷ [];
}
classify_spf (r ∷ s ∷ rs) = record {
  present = true;
  record_count = length (r ∷ s ∷ rs);
  valid = false;
  qualifier = [];
  raw = [];
  records = r ∷ s ∷ rs;
}

unfoldable pub analyze_spf : List Text → SpfResult
unfolding classify_spf select_spf
analyze_spf rs = classify_spf (select_spf rs)
