-- ===== src/Probe/Mx/Results.antt =====
-- How many results the MX prober reports for a target.
use dnshealth_exporter.Prelude.{
  ℕ, ◌+◌, Bool, true, false, not, ◌&&◌, ◌||◌, none, some, List, [], ◌∷◌, ◌≡◌, refl, sym, ap, ◌∙◌,
  arith, if◌then◌else◌, any, count, Bool-cases, inl, inr,
}
use dnshealth_exporter.Text.{Text, bytes, ◌==◌, contains, lookup}
use dnshealth_exporter.Text.Equality.{==_iff}
use dnshealth_exporter.Dns.{Net, History}
use dnshealth_exporter.Probe.{ProbeResult}
use dnshealth_exporter.Probe.Mx.{
  MxRecord, MxCaches, no_caches, check_target, check_validity, mx_loop,
}

-- A result that carries mx_info, and the target that a result is labelled with.
unfoldable pub is_info : ProbeResult → Bool
unfolding lookup
is_info r = elim (lookup (bytes "mx_info") r.metrics) [ none ↦ false | some _ ↦ true ]

unfoldable pub target_of : ProbeResult → Text
unfolding lookup
target_of r = elim (lookup (bytes "target") r.labels) [ none ↦ [] | some t ↦ t ]

unfoldable pub informs : Text → ProbeResult → Bool
unfolding is_info target_of ◌==◌
informs t r = is_info r && target_of r == t

unfoldable pub validates : Text → ProbeResult → Bool
unfolding is_info target_of ◌==◌
validates t r = not (is_info r) && target_of r == t

abbrev pub of_target : Text → MxRecord → Bool
of_target t r = r.target == t

informs-false : (t : Text) (r : ProbeResult) → is_info r ≡ false → informs t r ≡ false
unfolding informs
informs-false t r i = ap (λ b. b && target_of r == t) i

validates-target :
    (t u : Text) (r : ProbeResult) → is_info r ≡ false → target_of r ≡ u → validates t r ≡ (u == t)
unfolding validates
validates-target t u r i l = ap (λ b. not b && target_of r == t) i ∙ ap (λ v. v == t) l

module _ (net : Net) (timeout : ℕ) (zone : Text) where
  check_validity-lem :
      (target : Text) (c : MxCaches) (h : History)
      → let out = (check_validity net timeout zone target c h).0 in
        (is_info out.0 ≡ false) × (target_of out.0 ≡ target) × (out.1.emitted ≡ c.emitted)
  unfolding check_validity check_target is_info target_of ◌==◌
  check_validity-lem target c h = elim (Bool-cases (target == bytes ".")) [
    | inl e ↦ rw e (refl, refl, refl)
    | inr e ↦ rw e (refl, refl, refl)
  ]

  -- The results of the loop over the records: for each target one information result for each of its
  -- records, and one validity result if it has a record and none was reported before.
  Counts : Text → List Text → List MxRecord → List ProbeResult → Type 0
  Counts t emitted rs results =
      (count (informs t) results ≡ count (of_target t) rs)
      × (count (validates t) results
          ≡ (if not (contains emitted t) && any (of_target t) rs then 1 else 0))

  mx_loop-Counts :
      (rs : List MxRecord) (c : MxCaches) (t : Text) (h : History)
      → Counts t c.emitted rs (mx_loop net timeout zone c rs h).0
  unfolding mx_loop Counts informs validates is_info target_of ◌==◌ contains lookup
  mx_loop-Counts [] c t h = (refl, ground arith)
  mx_loop-Counts (r ∷ rs) c t h = elim (Bool-cases (contains c.emitted r.target)) [
    | inl e ↦
        let (a, b) = mx_loop-Counts rs c t h in
        rw e (
          ap (λ k. (if r.target == t then 1 else 0) + k) a,
          omega (
            arith,
            b
                ∙ ap (λ (d : Bool). if◌then◌else◌ {A = ℕ} d 1 0)
                    (absorbed (contains c.emitted t) (r.target == t) (any (of_target t) rs)
                      (seen e)),
          ),
        )
    | inr e ↦
        let x =
          check_validity net timeout zone r.target (record c { emitted = r.target ∷ c.emitted })
            h in
        let (i, l, s) =
          check_validity-lem r.target (record c { emitted = r.target ∷ c.emitted }) h in
        let (a, b) = mx_loop-Counts rs x.0.1 t x.1 in
        rw e (
          ground (arith, a, informs-false t x.0.0 i),
          ground (
            arith,
            b,
            e,
            informs-false t x.0.0 i,
            validates-target t r.target x.0.0 i l,
            ap (λ em. contains em t) s,
            seen' e,
          ),
        )
  ]
    where
      seen :
          contains c.emitted r.target ≡ true → (r.target == t) ≡ true → contains c.emitted t ≡ true
      seen e q = ap (contains c.emitted) (sym ((==_iff r.target t).0 q)) ∙ e

      seen' :
          contains c.emitted r.target ≡ false
          → (r.target == t) ≡ true
          → contains c.emitted t ≡ false
      seen' e q = ap (contains c.emitted) (sym ((==_iff r.target t).0 q)) ∙ e

      absorbed : (k q o : Bool) → (q ≡ true → k ≡ true) → (not k && o) ≡ (not k && (q || o))
      absorbed true q o f = refl
      absorbed false true o f = ground (arith, f refl)
      absorbed false false o f = refl

  -- For each target the loop over the MX records reports as many information results as there are
  -- records of it, and one validity result if there is any, however many of its records there are.
  pub mx_loop-counts :
      (rs : List MxRecord) (h : History) (t : Text)
      → let results = (mx_loop net timeout zone no_caches rs h).0 in
        (count (informs t) results ≡ count (of_target t) rs)
        × (count (validates t) results ≡ (if any (of_target t) rs then 1 else 0))
  unfolding Counts contains
  mx_loop-counts rs h t = mx_loop-Counts rs no_caches t h
