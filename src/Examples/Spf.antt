-- ===== src/Examples/Spf.antt =====
-- prober/spf_lookup.go and prober/dmarc.go on small records.
use dnshealth_exporter.Prelude.{
  ℕ, ◌+◌, ◌*◌, ◌≤◌, true, false, Option, some, [], ◌∷◌, State, ◌≡◌, refl, arith,
}
use dnshealth_exporter.Text.{trim_space, Text, bytes, ◌==◌, lookup, split, fields}
use dnshealth_exporter.Spf.Parse.{parse_spf_mechanisms}
use dnshealth_exporter.Spf.Lookup.{count_spf_lookups}
use dnshealth_exporter.Spf.Lookup.Bounds.{count_spf_lookups_fetches}
use dnshealth_exporter.Spf.Lookup.Exact.{fetch_published, tree_cost, count_spf_lookups_exact}
use dnshealth_exporter.Spf.Lookup.Repeats.{count_spf_lookups_repeats}
use dnshealth_exporter.Spf.{terminal_all_qualifier}
use dnshealth_exporter.Spf.Terminal.{meaning, terminal_all_qualifier-meaning}
use dnshealth_exporter.Dmarc.{parse_dmarc_tags, analyze_dmarc}
use dnshealth_exporter.Dmarc.Laws.{
  first_value, lookup-parse_dmarc_tags, Reports, begins_with, analyze_dmarc-Reports,
}

-- Records that are published at three names; the last one includes itself.
unfoldable published : Text → Option Text
unfolding lookup
published t = lookup t (
    (bytes "mail.example", bytes "v=spf1 mx ~all")
    ∷ (bytes "empty.example", bytes "v=spf1")
    ∷ (bytes "loop.example", bytes "v=spf1 include:loop.example -all")
    ∷ [])

abbrev policy : Text
policy = bytes "v=spf1 include:mail.example a -all"

abbrev twice : Text
twice = bytes "v=spf1 include:empty.example include:empty.example"

count_of_policy : (count_spf_lookups (fetch_published published) policy tt).0 ≡ (3, true)
unfolding count_spf_lookups published
count_of_policy = refl

count_of_loop :
    (count_spf_lookups (fetch_published published) (bytes "v=spf1 include:loop.example") tt).0
    ≡ (11, false)
unfolding count_spf_lookups published
count_of_loop = refl

count_spf_lookups_exact_example :
    (count_spf_lookups (fetch_published published) policy tt).0 ≡ tree_cost published 20 policy
unfolding count_spf_lookups published
count_spf_lookups_exact_example = count_spf_lookups_exact published policy (omega arith)

-- A fetch that counts how often it is called.
abbrev counting : Text → State ℕ (Option Text)
counting t n = (published t, n + 1)

count_spf_lookups_fetches_example : (count_spf_lookups counting policy 0).1 ≤ 0 + 10 * 1
count_spf_lookups_fetches_example =
    count_spf_lookups_fetches counting (λ n. n) 1 (λ t s. omega arith) policy 0

count_spf_lookups_repeats_example :
    ((count_spf_lookups (fetch_published published) twice tt).0 ≡ (11, false))
    × (tree_cost published 20 twice ≡ (2, true))
unfolding parse_spf_mechanisms published
count_spf_lookups_repeats_example =
    count_spf_lookups_repeats published twice (bytes "v=spf1") (bytes "empty.example") false refl
      refl refl

terminal_all_qualifier-meaning_example :
    terminal_all_qualifier (bytes "v=spf1 -all a ~ALL") ≡ bytes "softfail"
unfolding meaning fields
terminal_all_qualifier-meaning_example = terminal_all_qualifier-meaning (bytes "v=spf1 -all a ~ALL")

abbrev dmarc : Text
dmarc = bytes "v=DMARC1; p=Reject; sp=none; p=none"

lookup-parse_dmarc_tags_example :
    lookup (bytes "p") (parse_dmarc_tags dmarc) ≡ first_value (bytes "p") (split b';' dmarc)
unfolding ◌==◌
lookup-parse_dmarc_tags_example = lookup-parse_dmarc_tags (bytes "p") dmarc (refl, refl)

policy_of_dmarc : lookup (bytes "p") (parse_dmarc_tags dmarc) ≡ some (bytes "reject")
unfolding lookup parse_dmarc_tags
policy_of_dmarc = refl

analyze_dmarc-Reports_example :
    Reports (trim_space dmarc) (analyze_dmarc (bytes "hello" ∷ dmarc ∷ bytes "v=DMARC1" ∷ []))
unfolding begins_with trim_space
analyze_dmarc-Reports_example =
    analyze_dmarc-Reports (bytes "hello" ∷ []) dmarc (bytes "v=DMARC1" ∷ []) (refl, tt) refl
