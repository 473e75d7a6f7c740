-- ===== src/Dashboard/Status/Balance.antt =====
-- The parentheses of the composed expressions.
use dnshealth_exporter.Prelude.{
  ℕ, zero, suc, ◌≡◌, refl, sym, ap, ◌∙◌, true, false, Option, none, some, List, [], ◌∷◌, ◌++◌, eqb,
  if◌then◌else◌, is_nil, Bool-cases, inl, inr, arith, ◌&&◌,
}
use dnshealth_exporter.Text.{Text, bytes, concat}
use dnshealth_exporter.Dashboard.Status.{
  StatusCheck, scalarize_status_predicate, scalar_or_zero, four_states, compose_status_expr,
}

-- The parentheses that are open behind a text, if they are `d` before it; none where one is closed
-- that was not opened.
unfoldable pub open_after : ℕ → Text → Option ℕ
open_after d [] = some d
open_after d (c ∷ cs) =
    if eqb c b'('
    then open_after (suc d) cs
    else if eqb c b')'
    then (elim d [ zero ↦ none | suc e ↦ open_after e cs ])
    else open_after d cs

-- Whatever is open before the text is open behind it, and stays open within it.
abbrev pub IsBalanced : Text → Type 0
IsBalanced t = (d : ℕ) → open_after d t ≡ some d

module _ (c : ℕ) (cs : Text) (d : ℕ) where
  after-open : eqb c b'(' ≡ true → open_after d (c ∷ cs) ≡ open_after (suc d) cs
  unfolding open_after
  after-open p = rw p refl

  after-close :
      eqb c b'(' ≡ false → eqb c b')' ≡ true → open_after (suc d) (c ∷ cs) ≡ open_after d cs
  unfolding open_after
  after-close p q = rw (p, q) refl

  after-other : eqb c b'(' ≡ false → eqb c b')' ≡ false → open_after d (c ∷ cs) ≡ open_after d cs
  unfolding open_after
  after-other p q = rw (p, q) refl

after-unopened :
    (c : ℕ) (cs : Text) → eqb c b'(' ≡ false → eqb c b')' ≡ true → open_after 0 (c ∷ cs) ≡ none
unfolding open_after
after-unopened c cs p q = rw (p, q) refl

after_close-suc :
    (c : ℕ) (cs : Text) (d e : ℕ)
    → eqb c b'(' ≡ false
    → eqb c b')' ≡ true
    → ((b : ℕ) → open_after b cs ≡ some e → open_after (suc b) cs ≡ some (suc e))
    → open_after d (c ∷ cs) ≡ some e
    → open_after (suc d) (c ∷ cs) ≡ some (suc e)
after_close-suc c cs zero e p q behind h = ground (arith, after-unopened c cs p q, h)
after_close-suc c cs (suc d) e p q behind h =
    after-close c cs (suc d) p q ∙ behind d (sym (after-close c cs d p q) ∙ h)

-- One more open parenthesis before a text is one more behind it.
open_after-suc :
    (t : Text) (d e : ℕ) → open_after d t ≡ some e → open_after (suc d) t ≡ some (suc e)
unfolding open_after
open_after-suc [] d e h = ground (arith, h)
open_after-suc (c ∷ cs) d e h = elim (Bool-cases (eqb c b'(')) [
  | inl p ↦ after-open c cs (suc d) p ∙ open_after-suc cs (suc d) e (sym (after-open c cs d p) ∙ h)
  | inr p ↦ elim (Bool-cases (eqb c b')')) [
    | inl q ↦ after_close-suc c cs d e p q (λ b. open_after-suc cs b e) h
    | inr q ↦
        after-other c cs (suc d) p q ∙ open_after-suc cs d e (sym (after-other c cs d p q) ∙ h)
  ]
]

pub closed-IsBalanced : (t : Text) → open_after 0 t ≡ some 0 → IsBalanced t
closed-IsBalanced t h zero = h
closed-IsBalanced t h (suc d) = open_after-suc t d d (closed-IsBalanced t h d)

abbrev then_open : Option ℕ → Text → Option ℕ
then_open none t = none
then_open (some d) t = open_after d t

open_after-append : (a b : Text) (d : ℕ) → open_after d (a ++ b) ≡ then_open (open_after d a) b
unfolding open_after
open_after-append [] b d = refl
open_after-append (c ∷ a) b zero = elim (Bool-cases (eqb c b'(')) [
  | inl e ↦ rw e (open_after-append a b 1)
  | inr e ↦ elim (Bool-cases (eqb c b')')) [
    | inl f ↦ rw (e, f) refl
    | inr f ↦ rw (e, f) (open_after-append a b 0)
  ]
]
open_after-append (c ∷ a) b (suc d) = elim (Bool-cases (eqb c b'(')) [
  | inl e ↦ rw e (open_after-append a b (suc (suc d)))
  | inr e ↦ elim (Bool-cases (eqb c b')')) [
    | inl f ↦ rw (e, f) (open_after-append a b d)
    | inr f ↦ rw (e, f) (open_after-append a b (suc d))
  ]
]

-- A text after another one whose open parentheses are known.
open_after-then :
    (a b : Text) (d e : ℕ) (o : Option ℕ)
    → open_after d a ≡ some e
    → open_after e b ≡ o
    → open_after d (a ++ b) ≡ o
open_after-then a b d e o h k = open_after-append a b d ∙ ap (λ x. then_open x b) h ∙ k

scalarize-IsBalanced : (p : Text) → IsBalanced p → IsBalanced (scalarize_status_predicate p)
unfolding scalarize_status_predicate open_after
scalarize-IsBalanced p h d =
    open_after-then (bytes "(clamp_max(max(") (p ++ bytes "), 1) or vector(0))") d
      (suc (suc (suc d))) (some d) refl
      (open_after-then p (bytes "), 1) or vector(0))") (suc (suc (suc d))) (suc (suc (suc d)))
        (some d) (h (suc (suc (suc d)))) refl)

scalar_or_zero-IsBalanced : (p : Text) → IsBalanced p → IsBalanced (scalar_or_zero p)
unfolding scalar_or_zero open_after
scalar_or_zero-IsBalanced [] h d = refl
scalar_or_zero-IsBalanced (c ∷ cs) h d = scalarize-IsBalanced (c ∷ cs) h d

-- The pieces of a text, with what is open behind each.
abbrev Passes : ℕ → List Text → List ℕ → ℕ → Type 0
Passes d [] _ f = d ≡ f
Passes d (t ∷ ts) [] f = ⊥
Passes d (t ∷ ts) (e ∷ es) f = (open_after d t ≡ some e) × Passes e ts es f

concat-Passes :
    (ts : List Text) (es : List ℕ) (d f : ℕ) → Passes d ts es f → open_after d (concat ts) ≡ some f
unfolding concat open_after
concat-Passes [] es d f h = ap some h
concat-Passes (t ∷ ts) [] d f h = elim h [ ]
concat-Passes (t ∷ ts) (e ∷ es) d f (h, hs) =
    open_after-then t (concat ts) d e (some f) h (concat-Passes ts es e f hs)

four_states-IsBalanced :
    (na hard warn : Text)
    → IsBalanced na
    → IsBalanced hard
    → IsBalanced warn
    → IsBalanced (four_states na hard warn)
unfolding four_states open_after
four_states-IsBalanced na hard warn n h w d =
    let d1 = suc d in
    let d2 = suc d1 in
    let d3 = suc d2 in
    concat-Passes _ (d1 ∷ d1 ∷ d2 ∷ d2 ∷ d1 ∷ d1 ∷ d3 ∷ d3 ∷ d ∷ []) d d
      (refl, (n d1, (refl, (n d2, (refl, (h d1, (refl, (w d3, (refl, refl)))))))))

-- A check whose three predicates have balanced parentheses is composed to an expression whose
-- parentheses are balanced.
pub compose_status_expr-IsBalanced :
    (c : StatusCheck)
    → IsBalanced c.expr
    → IsBalanced c.na_expr
    → IsBalanced c.warn_expr
    → IsBalanced (compose_status_expr c)
unfolding compose_status_expr
compose_status_expr-IsBalanced c h n w =
    elim (Bool-cases (is_nil c.na_expr && is_nil c.warn_expr)) [
      | inl e ↦ rw e h
      | inr e ↦
          let states =
            four_states-IsBalanced (scalar_or_zero c.na_expr) (scalarize_status_predicate c.expr)
              (scalar_or_zero c.warn_expr) (scalar_or_zero-IsBalanced c.na_expr n)
              (scalarize-IsBalanced c.expr h) (scalar_or_zero-IsBalanced c.warn_expr w) in
          rw e states
    ]
