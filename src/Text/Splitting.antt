-- ===== src/Text/Splitting.antt =====
-- Split and Join with a separator of one byte undo one another.
use dnshealth_exporter.Prelude.{
  ℕ, List, [], ◌∷◌, ◌++◌, ◌≡◌, ◌≢◌, refl, sym, ap, ◌∙◌, arith, eqb, All, Bool-cases, inl, inr,
  eqb_iff,
}
use dnshealth_exporter.Text.{Text, split, join}

pub split-ne-nil : (sep : ℕ) (s : Text) → (p : Text) × (ps : List Text) × (split sep s ≡ p ∷ ps)
unfolding split
split-ne-nil sep [] = ([], [], refl)
split-ne-nil sep (c ∷ cs) = elim (Bool-cases (eqb c sep)) [
  | inl e ↦ ([], split sep cs, rw e)
  | inr e ↦ let (p, ps, h) = split-ne-nil sep cs in (c ∷ p, ps, rw (e, h))
]

pub join-split : (sep : ℕ) (s : Text) → join (sep ∷ []) (split sep s) ≡ s
unfolding join split
join-split sep [] = refl
join-split sep (c ∷ cs) =
    let (p, ps, h) = split-ne-nil sep cs in
    let ih = join-split sep cs in
    elim (Bool-cases (eqb c sep)) [
      | inl e ↦ rw (e, h) (ap (◌∷◌ sep) (rw h at ih) ∙ ap (λ d. d ∷ cs) (sym ((eqb_iff c sep).0 e)))
      | inr e ↦ rw (e, h) (join-head c p ps ∙ ap (◌∷◌ c) (rw h at ih))
    ]
  where
    join-head :
        (d : ℕ) (q : Text) (qs : List Text)
        → join (sep ∷ []) ((d ∷ q) ∷ qs) ≡ d ∷ join (sep ∷ []) (q ∷ qs)
    join-head d q [] = refl
    join-head d q (r ∷ qs) = refl

abbrev pub Lacks : ℕ → Text → Type 0
Lacks sep = All (λ c. c ≢ sep)

pub split_lacking : (sep : ℕ) (p : Text) → Lacks sep p → split sep p ≡ p ∷ []
unfolding split
split_lacking sep [] h = refl
split_lacking sep (c ∷ cs) (h, hs) = ground (arith, split_lacking sep cs hs)

pub split-append :
    (sep : ℕ) (p rest : Text) → Lacks sep p → split sep (p ++ (sep ∷ rest)) ≡ p ∷ split sep rest
unfolding split
split-append sep [] rest h = ground arith
split-append sep (c ∷ cs) rest (h, hs) = ground (arith, split-append sep cs rest hs)

pub split-join :
    (sep : ℕ) (p : Text) (ps : List Text)
    → All (Lacks sep) (p ∷ ps)
    → split sep (join (sep ∷ []) (p ∷ ps)) ≡ p ∷ ps
unfolding join
split-join sep p [] (h, _) = split_lacking sep p h
split-join sep p (q ∷ ps) (h, hs) = split-append sep p _ h ∙ ap (◌∷◌ p) (split-join sep q ps hs)
