-- ===== src/Dashboard/Records/NameServers.antt =====
-- demo/dashboard/panels_records.go: the tables of NS records.
use dnshealth_exporter.Prelude.{none, some, List, [], ◌∷◌}
use dnshealth_exporter.Text.{bytes}
use dnshealth_exporter.Dashboard.Records.{
  Target, target, Organize, Override, override, RecordsTable, mappings, color_background, width,
  responded_yes_no_mappings, recursion_yes_no_mappings, empty_glue_mapping,
}

abbrev pub parent_ns_records_targets : List Target
parent_ns_records_targets =
    target (bytes "A") (bytes "dnshealth_ns_record{source=\"parent\",zone=\"$zone\"}") ∷ []

abbrev pub parent_ns_records_columns : Organize
parent_ns_records_columns = record {
  rename_by_name = (bytes "nameserver", bytes "Nameserver") ∷ (bytes "ip", bytes "Glue IP") ∷ [];
  index_by_name = (bytes "nameserver", 0) ∷ (bytes "ip", 1) ∷ [];
  exclude_by_name =
      bytes "Time"
      ∷ bytes "source"
      ∷ bytes "zone"
      ∷ bytes "Value"
      ∷ bytes "__name__"
      ∷ bytes "instance"
      ∷ bytes "job"
      ∷ [];
}

abbrev pub parent_ns_records_overrides : List Override
parent_ns_records_overrides = override (bytes "Glue IP") (mappings empty_glue_mapping ∷ []) ∷ []

abbrev pub parent_ns_records : RecordsTable
parent_ns_records = record {
  targets = parent_ns_records_targets;
  join_by_field = none;
  not_null = none;
  columns = parent_ns_records_columns;
  overrides = parent_ns_records_overrides;
  sort_by = bytes "Nameserver";
}

abbrev pub self_ns_records_targets : List Target
self_ns_records_targets =
    target (bytes "A") (bytes "dnshealth_ns_record{source=\"self\",zone=\"$zone\"}")
    ∷ target (bytes "B") (bytes "dnshealth_query_success{check=\"soa\",zone=\"$zone\"}")
    ∷ target (bytes "C") (bytes "dnshealth_ns_recursion_available{zone=\"$zone\"}")
    ∷ []

abbrev pub self_ns_records_columns : Organize
self_ns_records_columns = record {
  rename_by_name =
      (bytes "nameserver", bytes "Nameserver")
      ∷ (bytes "ip 1", bytes "IP")
      ∷ (bytes "Value #B", bytes "Responded")
      ∷ (bytes "Value #C", bytes "Recursion")
      ∷ [];
  index_by_name =
      (bytes "nameserver", 0)
      ∷ (bytes "ip 1", 1)
      ∷ (bytes "Value #B", 2)
      ∷ (bytes "Value #C", 3)
      ∷ [];
  exclude_by_name =
      bytes "Time 1"
      ∷ bytes "Time 2"
      ∷ bytes "Time 3"
      ∷ bytes "source 1"
      ∷ bytes "check"
      ∷ bytes "zone 1"
      ∷ bytes "zone 2"
      ∷ bytes "zone 3"
      ∷ bytes "ip 2"
      ∷ bytes "ip 3"
      ∷ bytes "instance 1"
      ∷ bytes "instance 2"
      ∷ bytes "instance 3"
      ∷ bytes "job 1"
      ∷ bytes "job 2"
      ∷ bytes "job 3"
      ∷ bytes "__name__ 1"
      ∷ bytes "__name__ 2"
      ∷ bytes "__name__ 3"
      ∷ bytes "Value #A"
      ∷ [];
}

abbrev pub self_ns_records_overrides : List Override
self_ns_records_overrides =
    override (bytes "Responded")
      (mappings responded_yes_no_mappings ∷ color_background ∷ width 100 ∷ [])
    ∷ override (bytes "Recursion")
        (mappings recursion_yes_no_mappings ∷ color_background ∷ width 100 ∷ [])
    ∷ override (bytes "IP") (width 240 ∷ [])
    ∷ []

abbrev pub self_ns_records : RecordsTable
self_ns_records = record {
  targets = self_ns_records_targets;
  join_by_field = some (bytes "nameserver");
  not_null = some (bytes "Value #A");
  columns = self_ns_records_columns;
  overrides = self_ns_records_overrides;
  sort_by = bytes "Nameserver";
}
