-- ===== src/Dashboard/Layout/Placed.antt =====
-- The places of the panels for every offset.
use dnshealth_exporter.Prelude.{
  ℕ, suc, ◌+◌, ◌-◌, ◌≤◌, ◌<◌, ◌≡◌, refl, ap, zero, Bool, true, false, ◌&&◌, ◌||◌, Option, none,
  some, List, [], ◌∷◌, ◌++◌, leb, if◌then◌else◌, all, map, arith, Bool-cases, inl, inr,
}
use dnshealth_exporter.Text.{Text, bytes}
use dnshealth_exporter.Dashboard.Layout.{
  parent_status_table, ns_status_table, soa_status_table, parent_ns_records_table,
  self_ns_records_table, soa_serials_table, with_rows, em_dash, GridPos, Panel, Item, panel, row,
  info_text_panel, sub_y, panel_at, panels_at, items_at, build_overview,
}

abbrev raised : ℕ → GridPos → GridPos
raised off p = record p { y = p.y - off }

abbrev raised_panel : ℕ → Panel → Panel
raised_panel off p = record p { pos = raised off p.pos }

-- An item some rows further up, with all that it holds.
abbrev pub raised_item : ℕ → Item → Item
raised_item off (panel p) = panel (raised_panel off p)
raised_item off (row title collapsed pos ps) =
    row title collapsed (raised off pos) (map (raised_panel off) ps)

abbrev panel_places : List Panel → List GridPos
panel_places [] = []
panel_places (p ∷ ps) = p.pos ∷ panel_places ps

-- The places of the panels, the headers of rows included.
abbrev pub places : List Item → List GridPos
places [] = []
places (panel p ∷ items) = p.pos ∷ places items
places (row title collapsed pos ps ∷ items) = pos ∷ (panel_places ps ++ places items)

-- Beside, or above and below one another.
abbrev apart : GridPos → GridPos → Bool
apart p q =
    (leb (p.x + p.w) q.x || leb (q.x + q.w) p.x) || (leb (p.y + p.h) q.y || leb (q.y + q.h) p.y)

-- No two places overlap, and none leaves the 24 columns of the grid.
abbrev pub is_laid_out : List GridPos → Bool
is_laid_out [] = true
is_laid_out (p ∷ ps) = leb (p.x + p.w) 24 && (all (apart p) ps && is_laid_out ps)

abbrev pub or_no_items : Option (List Item) → List Item
or_no_items none = []
or_no_items (some items) = items

-- The panels below the info panel for an offset: a panic, or the panels of the offset 0 moved up.
abbrev pub raised_items : ℕ → Option (List Item)
raised_items off =
    if leb off 4 then some (map (raised_item off) (or_no_items (items_at 0))) else none

items_at-raised :
    (off : ℕ)
    → off ≤ 4
    → (items_at off ≡ some (map (raised_item off) (or_no_items (items_at 0))))
      × (is_laid_out (places (or_no_items (items_at off))) ≡ true)
unfolding items_at with_rows panels_at panel_at sub_y
items_at-raised zero h = (refl, refl)
items_at-raised (suc zero) h = (refl, refl)
items_at-raised (suc (suc zero)) h = (refl, refl)
items_at-raised (suc (suc (suc zero))) h = (refl, refl)
items_at-raised (suc (suc (suc (suc zero)))) h = (refl, refl)
items_at-raised (suc (suc (suc (suc (suc n))))) h = absurd (omega arith)

panel_at-panics :
    (title : Text) (x base w h off : ℕ) → base < off → panel_at title x base w h off ≡ none
unfolding panel_at sub_y
panel_at-panics title x base w h off l = ground arith

panels_at-panics :
    (f : ℕ → Option Panel) (fs : List (ℕ → Option Panel)) (off : ℕ)
    → f off ≡ none
    → panels_at (f ∷ fs) off ≡ none
unfolding panels_at
panels_at-panics f fs off e = rw e refl

items_at-panics : (off : ℕ) → 4 < off → items_at off ≡ none
unfolding items_at with_rows
items_at-panics off l = ap (with_rows off) (
    panels_at-panics parent_status_table
      (ns_status_table ∷ soa_status_table ∷ parent_ns_records_table ∷ self_ns_records_table
        ∷ soa_serials_table ∷ [])
      off (panel_at-panics (bytes "Parent " ++ (em_dash ++ bytes " status")) 0 4 8 10 off l))

-- With an offset of at most four rows the layout is that of the offset 0, each panel and each row
-- raised by the offset, and with a larger one the generator panics; no two panels overlap and none
-- leaves the 24 columns.
pub items_at-raised_items :
    (off : ℕ)
    → (items_at off ≡ raised_items off) × (is_laid_out (places (or_no_items (items_at off))) ≡ true)
items_at-raised_items off = elim (Bool-cases (leb off 4)) [
  | inl e ↦ let (r, l) = items_at-raised off (ground (arith, e)) in (rw e r, l)
  | inr e ↦ let p = items_at-panics off (ground (arith, e)) in (rw e p, rw p refl)
]

-- Both variants are built: the one with the info panel has it above the panels of the offset 0, and
-- the one without has these panels moved up by its height; in both no two panels overlap and none
-- leaves the 24 columns.
pub build_overview-Placed :
    (include_info_text : Bool)
    → (build_overview include_info_text
        ≡ some (
            if include_info_text
            then panel info_text_panel ∷ or_no_items (items_at 0)
            else map (raised_item 4) (or_no_items (items_at 0))))
      × (is_laid_out (places (or_no_items (build_overview include_info_text))) ≡ true)
unfolding build_overview items_at with_rows panels_at panel_at sub_y
build_overview-Placed true = (refl, refl)
build_overview-Placed false = (refl, refl)
