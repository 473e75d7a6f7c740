-- ===== src/Dashboard/Status.antt =====
-- demo/dashboard/panels_status.go and helpers.go: the expressions of the status tables, as texts,
-- and the colours of their states.
pub mod Balance
pub mod States
use Prim.Native.String.{String}
use dnshealth_exporter.Prelude.{
  ℕ, Bool, true, false, ◌&&◌, Option, none, some, List, [], ◌∷◌, ◌++◌, if◌then◌else◌, is_nil,
}
use dnshealth_exporter.Text.{Text, bytes, concat}

-- statusCheck; an empty na_expr or warn_expr is one that is not set.
pub record StatusCheck : Type 0 where
  pub ref_id : Text
  pub expr : Text
  pub na_expr : Text
  pub warn_expr : Text
  pub legend_format : Text
  pub detail : Text

unfoldable pub scalarize_status_predicate : Text → Text
scalarize_status_predicate p = bytes "(clamp_max(max(" ++ (p ++ bytes "), 1) or vector(0))")

-- The scalar of an optional predicate.
unfoldable pub scalar_or_zero : Text → Text
unfolding scalarize_status_predicate
scalar_or_zero p = if is_nil p then bytes "vector(0)" else scalarize_status_predicate p

-- 2 * na + (1 - na) * hard * (1 + 2 * warn)
unfoldable pub four_states : (na hard warn : Text) → Text
four_states na hard warn = concat (
    bytes "(2 * "
    ∷ na
    ∷ bytes ") + ((1 - "
    ∷ na
    ∷ bytes ") * "
    ∷ hard
    ∷ bytes " * (1 + (2 * "
    ∷ warn
    ∷ bytes ")))"
    ∷ [])

unfoldable pub compose_status_expr : StatusCheck → Text
unfolding four_states scalarize_status_predicate scalar_or_zero
compose_status_expr c =
    if is_nil c.na_expr && is_nil c.warn_expr
    then c.expr
    else four_states (scalar_or_zero c.na_expr) (scalarize_status_predicate c.expr)
        (scalar_or_zero c.warn_expr)

abbrev pub newline : Text
newline = 10 ∷ []

abbrev pub check_description : StatusCheck → Text
check_description c =
    bytes "### " ++ (c.legend_format ++ (newline ++ (newline ++ (c.detail ++ newline))))

-- The checks after the first one, each with a line break before it.
unfoldable pub more_descriptions : List StatusCheck → Text
more_descriptions [] = []
more_descriptions (c ∷ cs) = newline ++ (check_description c ++ more_descriptions cs)

unfoldable pub build_status_panel_description : List StatusCheck → Text
unfolding more_descriptions
build_status_panel_description [] = []
build_status_panel_description (c ∷ cs) = check_description c ++ more_descriptions cs

abbrev pub soa_no_data : Text
soa_no_data = bytes "absent(dnshealth_soa_serial{zone=\"$zone\"})"

unfoldable pub or_no_data : Text → Text
or_no_data base = base ++ (bytes " or " ++ soa_no_data)

-- The states of a Result cell, each with its text and colour.
pub record Mapping : Type 0 where
  pub value : Text
  pub text : Text
  pub color : Text
  pub index : ℕ

abbrev pub mapping : String → String → String → ℕ → Mapping
mapping value text color index = record {
  value = bytes value;
  text = bytes text;
  color = bytes color;
  index = index;
}

abbrev pub status_mappings : List Mapping
status_mappings =
    mapping "0" "FAIL" "red" 0
    ∷ mapping "1" "PASS" "green" 1
    ∷ mapping "2" "N/A" "text" 2
    ∷ mapping "3" "WARN" "yellow" 3
    ∷ []
