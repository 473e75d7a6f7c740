-- ===== src/Dmarc.antt =====
-- prober/dmarc.go: selection and parsing of DMARC records.
pub mod Laws
use dnshealth_exporter.Prelude.{
  Bool, true, false, not, ◌||◌, Option, none, some, List, [], ◌∷◌, if◌then◌else◌, is_nil,
}
use dnshealth_exporter.Text.{Text, bytes, ◌==◌, to_lower, trim_space, split, split2, lookup, insert}
use dnshealth_exporter.Spf.{has_version}

pub record DmarcResult : Type 0 where
  pub present : Bool
  pub valid : Bool
  pub policy : Text
  pub subdomain_policy : Text
  pub rua : Bool
  pub ruf : Bool
  pub raw : Text

unfoldable pub is_dmarc_record : Text → Bool
unfolding has_version trim_space
is_dmarc_record record' =
    has_version (bytes "v=DMARC1") (b' ' ∷ b';' ∷ b'\t' ∷ []) (trim_space record')

-- The first value of a tag is kept.
abbrev pub keep_first : Text → Text → List (Text × Text) → List (Text × Text)
keep_first key value tags = elim (lookup key tags) [ none ↦ insert key value tags | some _ ↦ tags ]

unfoldable pub add_tag : List (Text × Text) → Option (Text × Text) → List (Text × Text)
unfolding to_lower trim_space ◌==◌ lookup insert
add_tag tags none = tags
add_tag tags (some (k, v)) =
    let key = to_lower (trim_space k) in
    let value = to_lower (trim_space v) in
    if is_nil key || key == bytes "v" then tags else keep_first key value tags

unfoldable pub add_tags : List (Text × Text) → List Text → List (Text × Text)
unfolding add_tag split2
add_tags tags [] = tags
add_tags tags (part ∷ parts) = add_tags (add_tag tags (split2 b'=' part)) parts

unfoldable pub parse_dmarc_tags : Text → List (Text × Text)
unfolding add_tags split
parse_dmarc_tags record' = add_tags [] (split b';' record')

-- The test on the value of a p or sp tag.
unfoldable pub is_policy : Text → Bool
unfolding ◌==◌
is_policy p = p == bytes "none" || p == bytes "quarantine" || p == bytes "reject"

-- tags[key], which is empty for a tag that is not there.
unfoldable pub tag_value : Text → List (Text × Text) → Text
unfolding lookup
tag_value key tags = elim (lookup key tags) [ none ↦ [] | some v ↦ v ]

unfoldable pub has_tag : Text → List (Text × Text) → Bool
unfolding lookup
has_tag key tags = elim (lookup key tags) [ none ↦ false | some _ ↦ true ]

abbrev pub policy_of : Text → Text
policy_of p = if is_policy p then p else []

-- The first DMARC record, trimmed.
unfoldable pub select_dmarc : List Text → Text
unfolding is_dmarc_record trim_space
select_dmarc [] = []
select_dmarc (r ∷ rs) = if is_dmarc_record r then trim_space r else select_dmarc rs

unfoldable pub tagged_result : Text → List (Text × Text) → DmarcResult
unfolding is_policy tag_value has_tag
tagged_result rec tags = record {
  present = true;
  valid = is_policy (tag_value (bytes "p") tags);
  policy = policy_of (tag_value (bytes "p") tags);
  subdomain_policy = policy_of (tag_value (bytes "sp") tags);
  rua = has_tag (bytes "rua") tags;
  ruf = has_tag (bytes "ruf") tags;
  raw = rec;
}

unfoldable pub dmarc_of : Text → DmarcResult
unfolding tagged_result parse_dmarc_tags
dmarc_of [] = record {
  present = false;
  valid = false;
  policy = [];
  subdomain_policy = [];
  rua = false;
  ruf = false;
  raw = [];
}
dmarc_of (c ∷ cs) = tagged_result (c ∷ cs) (parse_dmarc_tags (c ∷ cs))

unfoldable pub analyze_dmarc : List Text → DmarcResult
unfolding dmarc_of select_dmarc
analyze_dmarc rs = dmarc_of (select_dmarc rs)
