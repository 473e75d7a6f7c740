-- ===== src/Dashboard/Records/Wired.antt =====
-- How the queries, columns and overrides of the tables of records fit together.
use dnshealth_exporter.Prelude.{
  ℕ, suc, Bool, true, false, not, ◌&&◌, Option, none, some, List, [], ◌∷◌, ◌++◌, all, eqb,
}
use dnshealth_exporter.Text.{Text, bytes, contains, ◌==◌}
use dnshealth_exporter.Dashboard.Checks.Vocabulary.{asks_known}
use dnshealth_exporter.Dashboard.Records.{Target, Override, RecordsTable}
use dnshealth_exporter.Dashboard.Records.NameServers.{parent_ns_records, self_ns_records}
use dnshealth_exporter.Dashboard.Records.Soa.{soa_serials}
use dnshealth_exporter.Dashboard.Records.Mail.{mx_records, spf_records, dmarc_records}
use dnshealth_exporter.Dashboard.Operator.{
  SeriesTarget, probe_cycle_duration_targets, dns_query_rate_targets, soa_serials_series_targets,
  query_duration_targets,
}

abbrev keys {ℓ} : {V : Type ℓ} → List (Text × V) → List Text
keys [] = []
keys ((k, v) ∷ pairs) = k ∷ keys pairs

abbrev displayed : List (Text × Text) → List Text
displayed [] = []
displayed ((k, v) ∷ pairs) = v ∷ displayed pairs

-- The name of the column that holds the values of a query.
abbrev value_columns : List Target → List Text
value_columns [] = []
value_columns (t ∷ []) = bytes "Value" ∷ []
value_columns ts = numbered ts
  where
    numbered : List Target → List Text
    numbered [] = []
    numbered (t ∷ ts) = (bytes "Value #" ++ t.ref_id) ∷ numbered ts

-- The columns that are renamed stand in the order of their indices, from `n` on.
unfoldable in_order : ℕ → List (Text × Text) → List (Text × ℕ) → Bool
unfolding ◌==◌
in_order n [] [] = true
in_order n ((k, v) ∷ names) ((j, i) ∷ indices) =
    (k == j && eqb i n) && in_order (suc n) names indices
in_order n _ _ = false

abbrev all_in : List Text → List Text → Bool
all_in ys xs = all (contains ys) xs

abbrev none_in : List Text → List Text → Bool
none_in ys xs = all (λ x. not (contains ys x)) xs

abbrev given : Option Text → List Text
given none = []
given (some field) = field ∷ []

abbrev columns_of : List Override → List Text
columns_of [] = []
columns_of (o ∷ os) = o.column ∷ columns_of os

abbrev are_known : List Target → Bool
are_known = all (λ t. asks_known t.expr)

-- The columns of the answers that a table speaks of: the values of its queries, and the field that
-- joins them.
abbrev answered : RecordsTable → List Text
answered t = given t.join_by_field ++ value_columns t.targets

-- The columns that are renamed are those that have an index, in the order of their indices from 0
-- on; none of them is excluded; the value of each query and the field that joins the queries are
-- renamed or excluded; the field that a row must have is the value of a query; an override and the
-- sort name a column that is displayed; and the queries ask for metrics that the exporter has.
unfoldable pub is_wired : RecordsTable → Bool
unfolding in_order contains asks_known
is_wired t =
    (in_order 0 t.columns.rename_by_name t.columns.index_by_name
      && none_in (keys t.columns.rename_by_name) t.columns.exclude_by_name)
    && ((all_in (keys t.columns.rename_by_name ++ t.columns.exclude_by_name) (answered t)
          && all_in (value_columns t.targets) (given t.not_null))
        && (all_in (displayed t.columns.rename_by_name) (t.sort_by ∷ columns_of t.overrides)
            && are_known t.targets))

abbrev pub records_tables : List RecordsTable
records_tables =
    parent_ns_records ∷ self_ns_records ∷ soa_serials ∷ mx_records ∷ spf_records ∷ dmarc_records
    ∷ []

abbrev pub series_tables : List (List SeriesTarget)
series_tables =
    probe_cycle_duration_targets ∷ dns_query_rate_targets ∷ soa_serials_series_targets
    ∷ query_duration_targets ∷ []
