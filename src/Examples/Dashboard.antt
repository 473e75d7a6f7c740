-- ===== src/Examples/Dashboard.antt =====
-- The expressions and the layout of the dashboard.
use dnshealth_exporter.Prelude.{Bool, true, false, [], ◌∷◌, ◌≡◌, refl, ◌||◌}
use dnshealth_exporter.Text.{Text, bytes, ◌==◌}
use dnshealth_exporter.Dashboard.Status.{
  StatusCheck, compose_status_expr, build_status_panel_description, more_descriptions,
}
use dnshealth_exporter.Dashboard.Status.States.{
  composed_sum, print_sum, sum_value, state, compose_status_expr-States,
}
use dnshealth_exporter.Dashboard.Layout.{items_at}
use dnshealth_exporter.Dashboard.Layout.Placed.{
  items_at-raised_items, raised_items, is_laid_out, places, or_no_items,
}

abbrev rich : StatusCheck
rich = record {
  ref_id = bytes "B";
  expr = bytes "max(HARDP)";
  na_expr = bytes "NAP";
  warn_expr = bytes "WARNP";
  legend_format = bytes "rich";
  detail = bytes "a check";
}

-- A zone for which the hard predicate holds, and the soft concern too.
abbrev warned : Text → Bool
warned t = t == bytes "max(HARDP)" || t == bytes "WARNP"

rich_warns : state false true true ≡ 3
unfolding state
rich_warns = refl

rich_described : build_status_panel_description (rich ∷ []) ≡ bytes "### rich\n\na check\n"
unfolding build_status_panel_description more_descriptions
rich_described = refl

compose_status_expr-States_example :
    (print_sum (composed_sum rich) [] ≡ compose_status_expr rich)
    × (sum_value warned (composed_sum rich)
        ≡ state (warned (bytes "NAP")) (warned (bytes "max(HARDP)")) (warned (bytes "WARNP")))
compose_status_expr-States_example = compose_status_expr-States rich warned refl

items_at-raised_items_example :
    (items_at 4 ≡ raised_items 4) × (is_laid_out (places (or_no_items (items_at 4))) ≡ true)
items_at-raised_items_example = items_at-raised_items 4
