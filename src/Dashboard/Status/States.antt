-- ===== src/Dashboard/Status/States.antt =====
-- The arithmetic of the composed expressions.
use dnshealth_exporter.Prelude.{
  ℕ, ◌+◌, ◌-◌, ◌*◌, ◌≡◌, refl, Bool, true, false, not, ◌&&◌, [], ◌∷◌, ◌++◌, if◌then◌else◌, is_nil,
  arith,
}
use dnshealth_exporter.Text.{Text, bytes, concat}
use dnshealth_exporter.Dashboard.Status.{
  StatusCheck, scalarize_status_predicate, scalar_or_zero, four_states, compose_status_expr,
}

-- The arithmetic of PromQL on scalars, with the precedence of its operators in the three sorts: a
-- product binds stronger than a sum, and both associate to the left. A scalar is a predicate that
-- is wrapped by scalarizeStatusPredicate.
mutual
  pub data Factor : Type 0 where
    digit : ℕ → Factor
    zero_vector : Factor
    scalar : Text → Factor
    parens : Sum → Factor

  pub data Product : Type 0 where
    factor : Factor → Product
    times : Product → Factor → Product

  pub data Sum : Type 0 where
    product : Product → Sum
    plus : Sum → Product → Sum
    minus : Sum → Product → Sum

-- What is written for each, before the text that follows it.
unfoldable mutual
  unfolding scalarize_status_predicate

  pub print_factor : Factor → Text → Text
  print_factor (digit n) rest = (b'0' + n) ∷ rest
  print_factor zero_vector rest = bytes "vector(0)" ++ rest
  print_factor (scalar p) rest = scalarize_status_predicate p ++ rest
  print_factor (parens s) rest = b'(' ∷ print_sum s (b')' ∷ rest)

  pub print_product : Product → Text → Text
  print_product (factor f) rest = print_factor f rest
  print_product (times p f) rest = print_product p (bytes " * " ++ print_factor f rest)

  pub print_sum : Sum → Text → Text
  print_sum (product p) rest = print_product p rest
  print_sum (plus s p) rest = print_sum s (bytes " + " ++ print_product p rest)
  print_sum (minus s p) rest = print_sum s (bytes " - " ++ print_product p rest)

-- The value, where `holds` tells which predicates hold: a scalar is 1 where its predicate holds,
-- and 0 elsewhere.
unfoldable mutual
  pub factor_value : (Text → Bool) → Factor → ℕ
  factor_value holds (digit n) = n
  factor_value holds zero_vector = 0
  factor_value holds (scalar p) = if holds p then 1 else 0
  factor_value holds (parens s) = sum_value holds s

  pub product_value : (Text → Bool) → Product → ℕ
  product_value holds (factor f) = factor_value holds f
  product_value holds (times p f) = product_value holds p * factor_value holds f

  pub sum_value : (Text → Bool) → Sum → ℕ
  sum_value holds (product p) = product_value holds p
  sum_value holds (plus s p) = sum_value holds s + product_value holds p
  sum_value holds (minus s p) = sum_value holds s - product_value holds p

abbrev optional_factor : Text → Factor
optional_factor p = if is_nil p then zero_vector else scalar p

abbrev group : Sum → Product
group s = factor (parens s)

abbrev twice : Factor → Sum
twice f = product (times (factor (digit 2)) f)

-- (2 * na) + ((1 - na) * hard * (1 + (2 * warn)))
abbrev four_sums : (na hard warn : Factor) → Sum
four_sums na hard warn =
    let one = product (factor (digit 1)) in
    let gate = group (minus one (factor na)) in
    let soft = parens (plus one (group (twice warn))) in
    plus (product (group (twice na))) (group (product (times (times gate hard) soft)))

-- The first state that applies: N/A, FAIL, WARN and PASS, as the numbers of statusMappings.
unfoldable pub state : (na hard warn : Bool) → ℕ
state na hard warn = if na then 2 else if not hard then 0 else if warn then 3 else 1

print-optional : (p rest : Text) → print_factor (optional_factor p) rest ≡ scalar_or_zero p ++ rest
unfolding print_factor scalar_or_zero scalarize_status_predicate
print-optional [] rest = refl
print-optional (c ∷ cs) rest = refl

optional-value :
    (holds : Text → Bool) (p : Text)
    → factor_value holds (optional_factor p) ≡ (if not (is_nil p) && holds p then 1 else 0)
unfolding factor_value
optional-value holds [] = refl
optional-value holds (c ∷ cs) = refl

four-print :
    (na warn hard : Text)
    → print_sum (four_sums (optional_factor na) (scalar hard) (optional_factor warn)) []
      ≡ four_states (scalar_or_zero na) (scalarize_status_predicate hard) (scalar_or_zero warn)
unfolding print_factor four_states scalar_or_zero scalarize_status_predicate concat
four-print [] [] hard = refl
four-print [] (w ∷ ws) hard = refl
four-print (n ∷ ns) [] hard = refl
four-print (n ∷ ns) (w ∷ ws) hard = refl

four-value :
    (holds : Text → Bool) (na warn : Factor) (hard : Text) (n w : Bool)
    → factor_value holds na ≡ (if n then 1 else 0)
    → factor_value holds warn ≡ (if w then 1 else 0)
    → sum_value holds (four_sums na (scalar hard) warn) ≡ state n (holds hard) w
unfolding factor_value state
four-value holds na warn hard n w e f = rw (e, f) (by_bits n (holds hard) w)
  where
    by_bits :
        (n h w : Bool)
        → 2 * (if n then 1 else 0)
            + (1 - (if n then 1 else 0)) * (if h then 1 else 0) * (1 + 2 * (if w then 1 else 0))
          ≡ state n h w
    by_bits true h w = ground arith
    by_bits false false w = ground arith
    by_bits false true false = refl
    by_bits false true true = refl

-- The composed expression in the grammar of PromQL.
abbrev pub composed_sum : StatusCheck → Sum
composed_sum c = four_sums (optional_factor c.na_expr) (scalar c.expr) (optional_factor c.warn_expr)

-- A check with one of the optional predicates is composed to an expression that is, in the grammar
-- of PromQL, one whose value is the first state that applies of N/A, FAIL, WARN and PASS, whichever
-- predicates hold.
pub compose_status_expr-States :
    (c : StatusCheck) (holds : Text → Bool)
    → (is_nil c.na_expr && is_nil c.warn_expr) ≡ false
    → (print_sum (composed_sum c) [] ≡ compose_status_expr c)
      × (sum_value holds (composed_sum c)
          ≡ state
              (not (is_nil c.na_expr) && holds c.na_expr)
              (holds c.expr)
              (not (is_nil c.warn_expr) && holds c.warn_expr))
unfolding compose_status_expr
compose_status_expr-States c holds e = (
  rw e (four-print c.na_expr c.warn_expr c.expr),
  four-value holds (optional_factor c.na_expr) (optional_factor c.warn_expr) c.expr _ _
      (optional-value holds c.na_expr) (optional-value holds c.warn_expr),
)
