-- ===== src/Dashboard/Layout.antt =====
-- demo/dashboard/dashboard.go and helpers.go: where buildOverview places the panels. Of a panel the
-- title and the place are modelled. Widths and places are uint32 and far below its bound.
pub mod Placed
use dnshealth_exporter.Prelude.{
  ℕ, ◌+◌, ◌-◌, ◌*◌, Bool, true, false, not, Option, none, some, List, [], ◌∷◌, ◌++◌, ltb,
  if◌then◌else◌,
}
use dnshealth_exporter.Text.{Text, bytes}

pub record GridPos : Type 0 where
  pub x : ℕ
  pub y : ℕ
  pub w : ℕ
  pub h : ℕ

abbrev pub grid_pos : (x y w h : ℕ) → GridPos
grid_pos x y w h = record { x = x; y = y; w = w; h = h }

pub record Panel : Type 0 where
  pub title : Text
  pub pos : GridPos

-- What the dashboard lists: a panel, or a row with the panels that it holds.
pub data Item : Type 0 where
  panel : Panel → Item
  row : (title : Text) (collapsed : Bool) (pos : GridPos) → List Panel → Item

-- The subtraction that panics instead of an underflow; none is the panic.
unfoldable pub sub_y : ℕ → ℕ → Option ℕ
sub_y base off = if ltb base off then none else some (base - off)

abbrev pub mail_header_y : ℕ
mail_header_y = 24

abbrev pub mail_row_h : ℕ
mail_row_h = 8

abbrev pub mail_row_y : ℕ → ℕ
mail_row_y i = mail_header_y + 1 + i * mail_row_h

abbrev pub info_panel_height : ℕ
info_panel_height = 4

-- The dash of the titles, in UTF-8.
abbrev pub em_dash : Text
em_dash = 226 ∷ 128 ∷ 148 ∷ []

-- A panel whose y is subY(base, yOffset).
unfoldable pub panel_at : Text → (x base w h : ℕ) → ℕ → Option Panel
unfolding sub_y
panel_at title x base w h y_offset = elim (sub_y base y_offset) [
  | none ↦ none
  | some y ↦ some (record { title = title; pos = grid_pos x y w h })
]

abbrev pub info_text_panel : Panel
info_text_panel = record {
  title = bytes "DNS health report " ++ (em_dash ++ bytes " ${zone}");
  pos = grid_pos 0 0 24 info_panel_height;
}

abbrev pub parent_status_table : ℕ → Option Panel
parent_status_table = panel_at (bytes "Parent " ++ (em_dash ++ bytes " status")) 0 4 8 10

abbrev pub ns_status_table : ℕ → Option Panel
ns_status_table = panel_at (bytes "NS " ++ (em_dash ++ bytes " status")) 8 4 8 10

abbrev pub soa_status_table : ℕ → Option Panel
soa_status_table = panel_at (bytes "SOA " ++ (em_dash ++ bytes " status")) 16 4 8 10

abbrev pub parent_ns_records_table : ℕ → Option Panel
parent_ns_records_table =
    panel_at (bytes "NS records " ++ (em_dash ++ bytes " from parent")) 0 14 8 10

abbrev pub self_ns_records_table : ℕ → Option Panel
self_ns_records_table =
    panel_at (bytes "NS records " ++ (em_dash ++ bytes " from the zone")) 8 14 8 10

abbrev pub soa_serials_table : ℕ → Option Panel
soa_serials_table =
    panel_at (bytes "SOA " ++ (em_dash ++ bytes " per-nameserver values")) 16 14 8 10

abbrev pub mx_status_table : ℕ → Option Panel
mx_status_table = panel_at (bytes "MX " ++ (em_dash ++ bytes " status")) 0 (mail_row_y 0) 12 8

abbrev pub mx_records_table : ℕ → Option Panel
mx_records_table =
    panel_at (bytes "MX records " ++ (em_dash ++ bytes " per zone")) 12 (mail_row_y 0) 12 8

abbrev pub spf_status_table : ℕ → Option Panel
spf_status_table = panel_at (bytes "SPF " ++ (em_dash ++ bytes " status")) 0 (mail_row_y 1) 12 8

abbrev pub spf_records_table : ℕ → Option Panel
spf_records_table =
    panel_at (bytes "SPF record " ++ (em_dash ++ bytes " per zone")) 12 (mail_row_y 1) 12 8

abbrev pub dmarc_status_table : ℕ → Option Panel
dmarc_status_table = panel_at (bytes "DMARC " ++ (em_dash ++ bytes " status")) 0 (mail_row_y 2) 12 8

abbrev pub dmarc_records_table : ℕ → Option Panel
dmarc_records_table =
    panel_at (bytes "DMARC record " ++ (em_dash ++ bytes " per zone")) 12 (mail_row_y 2) 12 8

abbrev pub probe_cycle_duration_timeseries : ℕ → Option Panel
probe_cycle_duration_timeseries = panel_at (bytes "Probe cycle duration") 0 50 12 8

abbrev pub dns_query_rate_timeseries : ℕ → Option Panel
dns_query_rate_timeseries = panel_at (bytes "Query rate and delegation cache hit ratio") 12 50 12 8

abbrev pub soa_serials_timeseries : ℕ → Option Panel
soa_serials_timeseries =
    panel_at (bytes "SOA serials per nameserver over time " ++ (em_dash ++ bytes " ${zone}")) 0 58
      12 8

abbrev pub query_duration_timeseries : ℕ → Option Panel
query_duration_timeseries =
    panel_at (bytes "Query duration (per check / nameserver) " ++ (em_dash ++ bytes " ${zone}")) 12
      58 12 8

-- The panels of a list of panel functions; a panic of one ends the program.
unfoldable pub panels_at : List (ℕ → Option Panel) → ℕ → Option (List Panel)
panels_at [] y_offset = some []
panels_at (f ∷ fs) y_offset = elim (f y_offset) [
  | none ↦ none
  | some p ↦ elim (panels_at fs y_offset) [ none ↦ none | some ps ↦ some (p ∷ ps) ]
]

abbrev pub row_at : Text → Bool → ℕ → List (ℕ → Option Panel) → ℕ → Option Item
row_at title collapsed base fs y_offset = elim (sub_y base y_offset) [
  | none ↦ none
  | some y ↦ elim (panels_at fs y_offset) [
    | none ↦ none
    | some ps ↦ some (row title collapsed (grid_pos 0 y 24 1) ps)
  ]
]

abbrev pub top_panels : List (ℕ → Option Panel)
top_panels =
    parent_status_table ∷ ns_status_table ∷ soa_status_table ∷ parent_ns_records_table
    ∷ self_ns_records_table ∷ soa_serials_table ∷ []

abbrev pub mail_panels : List (ℕ → Option Panel)
mail_panels =
    mx_status_table ∷ mx_records_table ∷ spf_status_table ∷ spf_records_table ∷ dmarc_status_table
    ∷ dmarc_records_table ∷ []

abbrev pub operator_panels : List (ℕ → Option Panel)
operator_panels =
    probe_cycle_duration_timeseries ∷ dns_query_rate_timeseries ∷ soa_serials_timeseries
    ∷ query_duration_timeseries ∷ []

abbrev pub map_panels : List Panel → List Item
map_panels [] = []
map_panels (p ∷ ps) = panel p ∷ map_panels ps

-- The rows below the panels of the top.
abbrev pub with_operator : ℕ → List Panel → Item → Option (List Item)
with_operator y_offset ps mail =
    elim (row_at (bytes "Operator / debug views") true (mail_row_y 3) operator_panels y_offset) [
      | none ↦ none
      | some operator ↦ some (map_panels ps ++ (mail ∷ operator ∷ []))
    ]

unfoldable pub with_rows : ℕ → Option (List Panel) → Option (List Item)
unfolding panels_at sub_y
with_rows y_offset none = none
with_rows y_offset (some ps) =
    elim (row_at (bytes "Mail " ++ (em_dash ++ bytes " MX / SPF / DMARC")) false mail_header_y
      mail_panels y_offset) [ none ↦ none | some mail ↦ with_operator y_offset ps mail ]

-- The items below the info panel.
unfoldable pub items_at : ℕ → Option (List Item)
unfolding with_rows panels_at
items_at y_offset = with_rows y_offset (panels_at top_panels y_offset)

-- The two variants: with the info panel, or with all else moved up by its height.
unfoldable pub build_overview : Bool → Option (List Item)
unfolding items_at
build_overview include_info_text =
    elim (items_at (if include_info_text then 0 else info_panel_height)) [
      | none ↦ none
      | some items ↦ some (if include_info_text then panel info_text_panel ∷ items else items)
    ]
