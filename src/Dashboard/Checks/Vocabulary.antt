-- ===== src/Dashboard/Checks/Vocabulary.antt =====
-- What the expressions of the status tables ask for.
use dnshealth_exporter.Prelude.{
  not, none, some, arith, &&-eq-true, ℕ, Bool, true, false, ◌&&◌, ◌||◌, List, [], ◌∷◌, ◌≡◌, refl,
  All, all, leb, eqb, if◌then◌else◌, is_nil,
}
use dnshealth_exporter.Text.{Text, bytes, contains, has_prefix, ◌==◌, concat}
use dnshealth_exporter.Dashboard.Status.{StatusCheck, compose_status_expr, or_no_data}
use dnshealth_exporter.Dashboard.Status.Balance.{
  closed-IsBalanced, IsBalanced, open_after, compose_status_expr-IsBalanced,
}
use dnshealth_exporter.Dashboard.Checks.Parent.{parent_status_checks}
use dnshealth_exporter.Dashboard.Checks.NameServers.{ns_status_checks}
use dnshealth_exporter.Dashboard.Checks.Soa.{soa_status_checks}
use dnshealth_exporter.Dashboard.Checks.Mx.{mx_status_checks}
use dnshealth_exporter.Dashboard.Checks.Email.{spf_status_checks, dmarc_status_checks}
use dnshealth_exporter.Cycle.Registration.{metric_names}
use dnshealth_exporter.Cycle.Vocabulary.Disjoint.{permanent_names, prefixed}
use dnshealth_exporter.Cycle.Vocabulary.Emitted.{emitted, reported_names}

abbrev is_word_byte : ℕ → Bool
is_word_byte c = (leb b'a' c && leb c b'z') || ((leb b'0' c && leb c b'9') || eqb c b'_')

-- A byte in front of the first word of a list.
abbrev to_first : ℕ → List Text → List Text
to_first c [] = (c ∷ []) ∷ []
to_first c (w ∷ ws) = (c ∷ w) ∷ ws

-- The runs of letters, digits and underscores, with an empty one for each other byte.
unfoldable words : Text → List Text
words [] = [] ∷ []
words (c ∷ cs) = let ws = words cs in if is_word_byte c then to_first c ws else [] ∷ ws

-- Every word that begins like a metric of the exporter is one: a metric that the probers report on
-- the network of Cycle/Vocabulary/Emitted, or one of the permanent registry.
unfoldable pub asks_known : Text → Bool
unfolding words contains has_prefix metric_names prefixed emitted
asks_known t =
    all
      (λ w.
        if has_prefix w (bytes "dnshealth_")
        then contains reported_names w || contains permanent_names w
        else true)
      (words t)

abbrev pub status_tables : List (List StatusCheck)
status_tables =
    parent_status_checks ∷ ns_status_checks ∷ soa_status_checks ∷ mx_status_checks
    ∷ spf_status_checks ∷ dmarc_status_checks ∷ []

-- A text whose own parentheses are closed.
unfoldable is_closed : Text → Bool
unfolding open_after
is_closed t = elim (open_after 0 t) [ none ↦ false | some n ↦ eqb n 0 ]

unfoldable is_sound : StatusCheck → Bool
unfolding asks_known is_closed compose_status_expr
is_sound c =
    (asks_known (compose_status_expr c) && not (is_nil c.detail))
    && (is_closed c.expr && (is_closed c.na_expr && is_closed c.warn_expr))

unfoldable are_sound : List StatusCheck → Bool
unfolding is_sound
are_sound [] = true
are_sound (c ∷ cs) = is_sound c && are_sound cs

abbrev pub IsSound : StatusCheck → Type 0
IsSound c =
    (asks_known (compose_status_expr c) ≡ true)
    × IsBalanced (compose_status_expr c)
    × (is_nil c.detail ≡ false)

is_closed-IsBalanced : (t : Text) → is_closed t ≡ true → IsBalanced t
unfolding is_closed
is_closed-IsBalanced t h = closed-IsBalanced t (ground (arith, h))

is_sound-IsSound : (c : StatusCheck) → is_sound c ≡ true → IsSound c
unfolding is_sound
is_sound-IsSound c h =
    let (a, b) = &&-eq-true (asks_known (compose_status_expr c) && not (is_nil c.detail)) _ h in
    let (known, documented) = &&-eq-true (asks_known (compose_status_expr c)) _ a in
    let (hard, optional) = &&-eq-true (is_closed c.expr) _ b in
    let (na, warn) = &&-eq-true (is_closed c.na_expr) _ optional in
    (
      known,
      compose_status_expr-IsBalanced c (is_closed-IsBalanced c.expr hard)
          (is_closed-IsBalanced c.na_expr na) (is_closed-IsBalanced c.warn_expr warn),
      ground (arith, documented),
    )

are_sound-IsSound : (cs : List StatusCheck) → are_sound cs ≡ true → All IsSound cs
unfolding are_sound
are_sound-IsSound [] h = tt
are_sound-IsSound (c ∷ cs) h =
    let (first, others) = &&-eq-true (is_sound c) (are_sound cs) h in
    (is_sound-IsSound c first, are_sound-IsSound cs others)

parent_sound : are_sound parent_status_checks ≡ true
unfolding are_sound ◌==◌ or_no_data concat
parent_sound = refl

ns_sound : are_sound ns_status_checks ≡ true
unfolding are_sound ◌==◌ or_no_data concat
ns_sound = refl

soa_sound : are_sound soa_status_checks ≡ true
unfolding are_sound ◌==◌ or_no_data concat
soa_sound = refl

mx_sound : are_sound mx_status_checks ≡ true
unfolding are_sound ◌==◌ or_no_data concat mx_status_checks
mx_sound = refl

spf_sound : are_sound spf_status_checks ≡ true
unfolding are_sound ◌==◌ or_no_data concat spf_status_checks
spf_sound = refl

dmarc_sound : are_sound dmarc_status_checks ≡ true
unfolding are_sound ◌==◌ or_no_data concat dmarc_status_checks
dmarc_sound = refl

-- Each check of the six status tables is composed to an expression that asks for no metric of the
-- exporter but those that the probers report, run on a network that answers each question with all
-- records of a zone, and those of the permanent registry; the parentheses of the expression are
-- balanced, and the check is documented.
pub status_tables-IsSound : All (All IsSound) status_tables
status_tables-IsSound = (
  are_sound-IsSound parent_status_checks parent_sound,
  (
    are_sound-IsSound ns_status_checks ns_sound,
    (
      are_sound-IsSound soa_status_checks soa_sound,
      (
        are_sound-IsSound mx_status_checks mx_sound,
        (
          are_sound-IsSound spf_status_checks spf_sound,
          (are_sound-IsSound dmarc_status_checks dmarc_sound, tt),
        ),
      ),
    ),
  ),
)
