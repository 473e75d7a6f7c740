-- ===== src/Dashboard/Records.antt =====
-- demo/dashboard/panels_records.go, transforms.go and helpers.go: what the tables of records query,
-- and what becomes of the columns.
pub mod NameServers
pub mod Soa
pub mod Mail
pub mod Wired
use Prim.Native.String.{String}
use dnshealth_exporter.Prelude.{ℕ, Option, List, [], ◌∷◌}
use dnshealth_exporter.Text.{Text, bytes}
use dnshealth_exporter.Dashboard.Status.{Mapping, mapping}

-- An instant query whose answer is a table.
pub record Target : Type 0 where
  pub ref_id : Text
  pub expr : Text

abbrev pub target : Text → Text → Target
target ref_id expr = record { ref_id = ref_id; expr = expr }

-- OrganizeOptions; a map is a list of pairs, and exclude_by_name has the names that are true.
pub record Organize : Type 0 where
  pub rename_by_name : List (Text × Text)
  pub index_by_name : List (Text × ℕ)
  pub exclude_by_name : List Text

-- The mappings of a cell: of values, or of the cell without a value.
pub data Mapped : Type 0 where
  values : List Mapping → Mapped
  null_value : (text color : Text) (index : ℕ) → Mapped

-- The properties that an override sets.
pub data Property : Type 0 where
  mappings : List Mapped → Property
  color_background : Property
  width : ℕ → Property

pub record Override : Type 0 where
  pub column : Text
  pub properties : List Property

abbrev pub override : Text → List Property → Override
override column properties = record { column = column; properties = properties }

-- A table: the field that its queries are joined by, the field that a row must have, the columns,
-- and the column that it is sorted by.
pub record RecordsTable : Type 0 where
  pub targets : List Target
  pub join_by_field : Option Text
  pub not_null : Option Text
  pub columns : Organize
  pub overrides : List Override
  pub sort_by : Text

abbrev pub null_na_mapping : Mapped
null_na_mapping = null_value (bytes "n/a") (bytes "text") 2

-- The mappings of 0 and 1, each with its text and colour.
abbrev two_values : (zero_text zero_color one_text one_color : String) → Mapped
two_values zero_text zero_color one_text one_color =
    values (mapping "0" zero_text zero_color 0 ∷ mapping "1" one_text one_color 1 ∷ [])

abbrev pub responded_yes_no_mappings : List Mapped
responded_yes_no_mappings = two_values "no" "red" "yes" "green" ∷ null_na_mapping ∷ []

abbrev pub recursion_yes_no_mappings : List Mapped
recursion_yes_no_mappings = two_values "no" "green" "RA=1" "red" ∷ null_na_mapping ∷ []

abbrev pub cname_yes_no_mappings : List Mapped
cname_yes_no_mappings = two_values "no" "green" "yes" "red" ∷ null_na_mapping ∷ []

abbrev pub mx_role_mappings : List Mapped
mx_role_mappings = two_values "backup" "text" "primary" "green" ∷ []

abbrev pub empty_glue_mapping : List Mapped
empty_glue_mapping = values (mapping "" "(not provided)" "text" 0 ∷ []) ∷ []
