-- ===== src/Dashboard/Records/Mail.antt =====
-- demo/dashboard/panels_records.go: the tables of MX, SPF and DMARC records.
use dnshealth_exporter.Prelude.{none, some, List, [], ◌∷◌}
use dnshealth_exporter.Text.{bytes}
use dnshealth_exporter.Dashboard.Records.{
  Target, target, Organize, Override, override, RecordsTable, mappings, color_background, width,
  responded_yes_no_mappings, cname_yes_no_mappings, mx_role_mappings,
}

abbrev pub mx_records_targets : List Target
mx_records_targets =
    target (bytes "A") (bytes "dnshealth_mx_info{zone=\"$zone\"}")
    ∷ target (bytes "B") (bytes "dnshealth_mx_resolves{zone=\"$zone\"}")
    ∷ target (bytes "C") (bytes "dnshealth_mx_is_cname{zone=\"$zone\"}")
    ∷ target (bytes "D") (bytes "dnshealth_mx_syntax_valid{zone=\"$zone\"}")
    ∷ target (bytes "E") (bytes "dnshealth_mx_is_primary{zone=\"$zone\"}")
    ∷ []

abbrev pub mx_records_columns : Organize
mx_records_columns = record {
  rename_by_name =
      (bytes "target", bytes "Target")
      ∷ (bytes "priority", bytes "Priority")
      ∷ (bytes "Value #B", bytes "Resolves")
      ∷ (bytes "Value #C", bytes "Is CNAME")
      ∷ (bytes "Value #D", bytes "Syntax valid")
      ∷ (bytes "Value #E", bytes "Role")
      ∷ [];
  index_by_name =
      (bytes "target", 0)
      ∷ (bytes "priority", 1)
      ∷ (bytes "Value #B", 2)
      ∷ (bytes "Value #C", 3)
      ∷ (bytes "Value #D", 4)
      ∷ (bytes "Value #E", 5)
      ∷ [];
  exclude_by_name =
      bytes "Time 1"
      ∷ bytes "Time 2"
      ∷ bytes "Time 3"
      ∷ bytes "Time 4"
      ∷ bytes "Time 5"
      ∷ bytes "zone 1"
      ∷ bytes "zone 2"
      ∷ bytes "zone 3"
      ∷ bytes "zone 4"
      ∷ bytes "zone 5"
      ∷ bytes "check 1"
      ∷ bytes "check 2"
      ∷ bytes "check 3"
      ∷ bytes "check 4"
      ∷ bytes "check 5"
      ∷ bytes "ip 1"
      ∷ bytes "ip 2"
      ∷ bytes "ip 3"
      ∷ bytes "ip 4"
      ∷ bytes "ip 5"
      ∷ bytes "nameserver 1"
      ∷ bytes "nameserver 2"
      ∷ bytes "nameserver 3"
      ∷ bytes "nameserver 4"
      ∷ bytes "nameserver 5"
      ∷ bytes "__name__ 1"
      ∷ bytes "__name__ 2"
      ∷ bytes "__name__ 3"
      ∷ bytes "__name__ 4"
      ∷ bytes "__name__ 5"
      ∷ bytes "instance 1"
      ∷ bytes "instance 2"
      ∷ bytes "instance 3"
      ∷ bytes "instance 4"
      ∷ bytes "instance 5"
      ∷ bytes "job 1"
      ∷ bytes "job 2"
      ∷ bytes "job 3"
      ∷ bytes "job 4"
      ∷ bytes "job 5"
      ∷ bytes "Value #A"
      ∷ [];
}

abbrev pub mx_records_overrides : List Override
mx_records_overrides =
    override (bytes "Priority") (width 80 ∷ [])
    ∷ override (bytes "Resolves")
        (mappings responded_yes_no_mappings ∷ color_background ∷ width 100 ∷ [])
    ∷ override (bytes "Is CNAME")
        (mappings cname_yes_no_mappings ∷ color_background ∷ width 100 ∷ [])
    ∷ override (bytes "Syntax valid")
        (mappings responded_yes_no_mappings ∷ color_background ∷ width 110 ∷ [])
    ∷ override (bytes "Role") (mappings mx_role_mappings ∷ color_background ∷ width 110 ∷ [])
    ∷ []

abbrev pub mx_records : RecordsTable
mx_records = record {
  targets = mx_records_targets;
  join_by_field = some (bytes "target");
  not_null = none;
  columns = mx_records_columns;
  overrides = mx_records_overrides;
  sort_by = bytes "Priority";
}

abbrev pub spf_records_targets : List Target
spf_records_targets =
    target (bytes "A") (bytes "dnshealth_spf_record{zone=\"$zone\"}")
    ∷ target (bytes "B") (bytes "dnshealth_spf_terminal_all{zone=\"$zone\"}")
    ∷ target (bytes "C") (bytes "dnshealth_spf_lookup_count{zone=\"$zone\"}")
    ∷ []

abbrev pub spf_records_columns : Organize
spf_records_columns = record {
  rename_by_name =
      (bytes "record", bytes "SPF record")
      ∷ (bytes "qualifier", bytes "SPF all")
      ∷ (bytes "Value #C", bytes "SPF lookups")
      ∷ [];
  index_by_name = (bytes "record", 0) ∷ (bytes "qualifier", 1) ∷ (bytes "Value #C", 2) ∷ [];
  exclude_by_name =
      bytes "zone"
      ∷ bytes "Time 1"
      ∷ bytes "Time 2"
      ∷ bytes "Time 3"
      ∷ bytes "nameserver 1"
      ∷ bytes "nameserver 2"
      ∷ bytes "nameserver 3"
      ∷ bytes "ip 1"
      ∷ bytes "ip 2"
      ∷ bytes "ip 3"
      ∷ bytes "__name__ 1"
      ∷ bytes "__name__ 2"
      ∷ bytes "__name__ 3"
      ∷ bytes "instance 1"
      ∷ bytes "instance 2"
      ∷ bytes "instance 3"
      ∷ bytes "job 1"
      ∷ bytes "job 2"
      ∷ bytes "job 3"
      ∷ bytes "Value #A"
      ∷ bytes "Value #B"
      ∷ [];
}

abbrev pub spf_records_overrides : List Override
spf_records_overrides =
    override (bytes "SPF all") (width 90 ∷ [])
    ∷ override (bytes "SPF lookups") (width 110 ∷ [])
    ∷ []

abbrev pub spf_records : RecordsTable
spf_records = record {
  targets = spf_records_targets;
  join_by_field = some (bytes "zone");
  not_null = none;
  columns = spf_records_columns;
  overrides = spf_records_overrides;
  sort_by = bytes "SPF record";
}

abbrev pub dmarc_records_targets : List Target
dmarc_records_targets =
    target (bytes "A") (bytes "dnshealth_dmarc_record{zone=\"$zone\"}")
    ∷ target (bytes "B") (bytes "dnshealth_dmarc_policy{zone=\"$zone\"}")
    ∷ []

abbrev pub dmarc_records_columns : Organize
dmarc_records_columns = record {
  rename_by_name =
      (bytes "record", bytes "DMARC record") ∷ (bytes "policy", bytes "DMARC policy") ∷ [];
  index_by_name = (bytes "record", 0) ∷ (bytes "policy", 1) ∷ [];
  exclude_by_name =
      bytes "zone"
      ∷ bytes "Time 1"
      ∷ bytes "Time 2"
      ∷ bytes "nameserver 1"
      ∷ bytes "nameserver 2"
      ∷ bytes "ip 1"
      ∷ bytes "ip 2"
      ∷ bytes "__name__ 1"
      ∷ bytes "__name__ 2"
      ∷ bytes "instance 1"
      ∷ bytes "instance 2"
      ∷ bytes "job 1"
      ∷ bytes "job 2"
      ∷ bytes "Value #A"
      ∷ bytes "Value #B"
      ∷ [];
}

abbrev pub dmarc_records_overrides : List Override
dmarc_records_overrides = override (bytes "DMARC policy") (width 130 ∷ []) ∷ []

abbrev pub dmarc_records : RecordsTable
dmarc_records = record {
  targets = dmarc_records_targets;
  join_by_field = some (bytes "zone");
  not_null = none;
  columns = dmarc_records_columns;
  overrides = dmarc_records_overrides;
  sort_by = bytes "DMARC record";
}
