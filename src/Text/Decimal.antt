-- ===== src/Text/Decimal.antt =====
-- strconv.ParseFloat on the priorities that the runner reads: decimal digits, with no sign, point or
-- exponent. Other texts count as unparsable here.
use dnshealth_exporter.Prelude.{
  ℕ, ◌+◌, ◌-◌, ◌*◌, ◌&&◌, Option, none, some, [], ◌∷◌, leb, if◌then◌else◌,
}
use dnshealth_exporter.Text.{Text}

unfoldable pub digits_from : ℕ → Text → Option ℕ
digits_from n [] = some n
digits_from n (c ∷ cs) =
    let rest = digits_from (n * 10 + (c - b'0')) cs in
    if leb b'0' c && leb c b'9' then rest else none

unfoldable pub parse_decimal : Text → Option ℕ
unfolding digits_from
parse_decimal [] = none
parse_decimal (c ∷ cs) = digits_from 0 (c ∷ cs)
