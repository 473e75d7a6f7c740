-- ===== src/Dashboard/Records/Soa.antt =====
-- demo/dashboard/panels_records.go: the table of SOA values.
use dnshealth_exporter.Prelude.{none, some, List, [], ◌∷◌}
use dnshealth_exporter.Text.{bytes}
use dnshealth_exporter.Dashboard.Records.{
  Target, target, Organize, Override, override, RecordsTable, width,
}

abbrev pub soa_serials_targets : List Target
soa_serials_targets =
    target (bytes "A") (bytes "dnshealth_soa_serial{zone=\"$zone\"}")
    ∷ target (bytes "B") (bytes "dnshealth_soa_refresh_seconds{zone=\"$zone\"}")
    ∷ target (bytes "C") (bytes "dnshealth_soa_retry_seconds{zone=\"$zone\"}")
    ∷ target (bytes "D") (bytes "dnshealth_soa_expire_seconds{zone=\"$zone\"}")
    ∷ target (bytes "E") (bytes "dnshealth_soa_minimum_seconds{zone=\"$zone\"}")
    ∷ []

abbrev pub soa_serials_columns : Organize
soa_serials_columns = record {
  rename_by_name =
      (bytes "nameserver", bytes "Nameserver")
      ∷ (bytes "ip 1", bytes "IP")
      ∷ (bytes "Value #A", bytes "Serial")
      ∷ (bytes "Value #B", bytes "Refresh (s)")
      ∷ (bytes "Value #C", bytes "Retry (s)")
      ∷ (bytes "Value #D", bytes "Expire (s)")
      ∷ (bytes "Value #E", bytes "Min TTL (s)")
      ∷ [];
  index_by_name =
      (bytes "nameserver", 0)
      ∷ (bytes "ip 1", 1)
      ∷ (bytes "Value #A", 2)
      ∷ (bytes "Value #B", 3)
      ∷ (bytes "Value #C", 4)
      ∷ (bytes "Value #D", 5)
      ∷ (bytes "Value #E", 6)
      ∷ [];
  exclude_by_name =
      bytes "Time 1"
      ∷ bytes "Time 2"
      ∷ bytes "Time 3"
      ∷ bytes "Time 4"
      ∷ bytes "Time 5"
      ∷ bytes "zone 1"
      ∷ bytes "zone 2"
      ∷ bytes "zone 3"
      ∷ bytes "zone 4"
      ∷ bytes "zone 5"
      ∷ bytes "ip 2"
      ∷ bytes "ip 3"
      ∷ bytes "ip 4"
      ∷ bytes "ip 5"
      ∷ bytes "__name__ 1"
      ∷ bytes "__name__ 2"
      ∷ bytes "__name__ 3"
      ∷ bytes "__name__ 4"
      ∷ bytes "__name__ 5"
      ∷ bytes "instance 1"
      ∷ bytes "instance 2"
      ∷ bytes "instance 3"
      ∷ bytes "instance 4"
      ∷ bytes "instance 5"
      ∷ bytes "job 1"
      ∷ bytes "job 2"
      ∷ bytes "job 3"
      ∷ bytes "job 4"
      ∷ bytes "job 5"
      ∷ [];
}

abbrev pub soa_serials_overrides : List Override
soa_serials_overrides =
    override (bytes "IP") (width 240 ∷ [])
    ∷ override (bytes "Refresh (s)") (width 110 ∷ [])
    ∷ override (bytes "Retry (s)") (width 100 ∷ [])
    ∷ override (bytes "Expire (s)") (width 110 ∷ [])
    ∷ override (bytes "Min TTL (s)") (width 110 ∷ [])
    ∷ []

abbrev pub soa_serials : RecordsTable
soa_serials = record {
  targets = soa_serials_targets;
  join_by_field = some (bytes "nameserver");
  not_null = none;
  columns = soa_serials_columns;
  overrides = soa_serials_overrides;
  sort_by = bytes "Nameserver";
}
