-- ===== src/Config/Laws.antt =====
-- What a configuration that was loaded satisfies.
use dnshealth_exporter.Prelude.{
  ℕ, suc, true, false, Option, none, some, List, [], ◌∷◌, ◌≡◌, refl, sym, ap, subst, ◌∙◌, arith,
  if◌then◌else◌, is_nil, All, Bool-cases, inl, inr,
}
use dnshealth_exporter.Prelude.Int.{ℤ, pos, negsuc, is_zero}
use dnshealth_exporter.Text.{
  Text, ◌==◌, trim_space, trim_left, trim_right, is_space, cons_trimmed, lookup, insert,
}
use dnshealth_exporter.Text.Equality.{==_iff, lookup-insert, lookup-insert_self}
use dnshealth_exporter.Config.{
  Config, no_zones, Loaded, ok, err, has_dot, default_to, apply_defaults, check_zone, check_zones,
  validate, join_host_port, add_override, canonical_overrides, canonicalise_override_keys,
  load_parsed, load, resolve_address, clashes, ◌>>=◌,
}

-- Trimming twice is trimming once.
trim_right_idem : (s : Text) → trim_right (trim_right s) ≡ trim_right s
unfolding trim_right
trim_right_idem [] = refl
trim_right_idem (c ∷ cs) = again c (trim_right cs) (trim_right_idem cs)
  where
    again : (d : ℕ) (r : Text) → trim_right r ≡ r → trim_right (cons_trimmed d r) ≡ cons_trimmed d r
    again d [] h = elim (Bool-cases (is_space d)) [ inl e ↦ rw e refl | inr e ↦ rw (e, e) refl ]
    again d (x ∷ r) h = ground (arith, h)

trim_left-right : (s : Text) → trim_left (trim_right (trim_left s)) ≡ trim_right (trim_left s)
unfolding trim_left trim_right
trim_left-right [] = refl
trim_left-right (c ∷ cs) = elim (Bool-cases (is_space c)) [
  | inl e ↦ rw e (trim_left-right cs)
  | inr e ↦ rw (e, e) (ground (arith, e))
]

pub trim_space_idem : (s : Text) → trim_space (trim_space s) ≡ trim_space s
unfolding trim_space
trim_space_idem s = ap trim_right (trim_left-right s) ∙ trim_right_idem (trim_left s)

ok-inj : {A : Type 0} (a b : A) → ok a ≡ ok b → a ≡ b
ok-inj a b h = ground (arith, h)

-- A zone that is accepted: it is trimmed, and it has a dot.
abbrev pub IsZone : Text → Type 0
IsZone z = (trim_space z ≡ z) × (has_dot z ≡ true)

-- A chain that succeeds succeeds at each of its steps.
bind-ok :
    {A B : Type 0} (m : Loaded A) (f : A → Loaded B) (b : B)
    → (m >>= f) ≡ ok b
    → (a : A) × (m ≡ ok a) × (f a ≡ ok b)
bind-ok (ok a) f b h = (a, refl, h)
bind-ok (err e) f b h = ground (arith, h)

check_zone-ok :
    (i : ℕ) (z z' : Text)
    → check_zone i z ≡ ok z'
    → (z' ≡ z) × (is_nil z ≡ false) × (has_dot z ≡ true)
check_zone-ok i z z' h = ground (arith, h)

check_zones-IsZone :
    (i : ℕ) (zs zs' : List Text)
    → check_zones i zs ≡ ok zs'
    → (All IsZone zs') × (is_nil zs' ≡ is_nil zs)
unfolding check_zones
check_zones-IsZone i [] zs' h = ground (arith, h)
check_zones-IsZone i (z ∷ zs) zs' h =
    let (z', e, k) = bind-ok (check_zone i (trim_space z)) _ zs' h in
    let (rest, e', k') = bind-ok (check_zones (suc i) zs) _ zs' k in
    let (a, b, d) = check_zone-ok i (trim_space z) z' e in
    let (good, _) = check_zones-IsZone (suc i) zs rest e' in
    finish z' rest (ok-inj _ _ k') (rw a (trim_space_idem z, d)) good
  where
    finish :
        (x : Text) (xs : List Text)
        → x ∷ xs ≡ zs'
        → IsZone x
        → All IsZone xs
        → (All IsZone zs') × (is_nil zs' ≡ false)
    finish x xs q p ps = rw (sym q) ((p, ps), refl)

module _ (canonical : Text → Option Text) where
  add_override-ok :
      (k v : Text) (o : Option Text) (m m' : List (Text × Text))
      → add_override canonical k v o m ≡ ok m'
      → (key : Text) × (o ≡ some key)
        × (m' ≡ insert key v m)
        × (clashes canonical (lookup key m) v ≡ false)
  add_override-ok k v none m m' h = ground (arith, h)
  add_override-ok k v (some key) m m' h = elim (Bool-cases (clashes canonical (lookup key m) v)) [
    | inl e ↦ ground (arith, rw e at h)
    | inr e ↦ (key, refl, sym (ok-inj _ _ (rw e at h)), e)
  ]

  -- A value that is there is never replaced by another.
  keeps-insert :
      (key k v w : Text) (m : List (Text × Text))
      → clashes canonical (lookup key m) v ≡ false
      → lookup k m ≡ some w
      → lookup k (insert key v m) ≡ some w
  keeps-insert key k v w m h e = elim (Bool-cases (key == k)) [
    | inl same ↦
        let agree : clashes canonical (some w) v ≡ false =
          ap (λ (o : Option Text). clashes canonical o v) (sym e)
          ∙ rw ((==_iff key k).0 same) at h in
        lookup-insert key k v m ∙ rw same (ap some (sym ((==_iff w v).0 (ground (arith, agree)))))
    | inr other ↦ lookup-insert key k v m ∙ rw other e
  ]

  overrides-keep :
      (rest m m' : List (Text × Text)) (k w : Text)
      → canonical_overrides canonical m rest ≡ ok m'
      → lookup k m ≡ some w
      → lookup k m' ≡ some w
  unfolding canonical_overrides
  overrides-keep [] m m' k w h e = rw (sym (ok-inj _ _ h)) e
  overrides-keep ((k', v) ∷ rest) m m' k w h e =
      let (m1, a, b) = bind-ok (add_override canonical k' v (canonical k') m) _ m' h in
      let (key, _, is, free) = add_override-ok k' v (canonical k') m m1 a in
      overrides-keep rest m1 m' k w b (rw is (keeps-insert key k v w m free e))

  -- An entry of the file, found in the new map under its canonical address.
  abbrev Kept : List (Text × Text) → Text × Text → Type 0
  Kept m' e = (key : Text) × (canonical e.0 ≡ some key) × (lookup key m' ≡ some e.1)

  overrides-Kept :
      (rest m m' : List (Text × Text))
      → canonical_overrides canonical m rest ≡ ok m'
      → All (Kept m') rest
  unfolding canonical_overrides
  overrides-Kept [] m m' h = tt
  overrides-Kept ((k, v) ∷ rest) m m' h =
      let (m1, a, b) = bind-ok (add_override canonical k v (canonical k) m) _ m' h in
      let (key, known, is, _) = add_override-ok k v (canonical k) m m1 a in
      (
        (key, known, overrides-keep rest m1 m' key v b (rw is (lookup-insert_self key v m))),
        overrides-Kept rest m1 m' b,
      )

  -- Every spelling of the address of an entry is dialled at the entry's value.
  abbrev pub Dials : Config → Text × Text → Type 0
  Dials c e = (ip : Text) → canonical ip ≡ canonical e.0 → resolve_address canonical c ip ≡ e.1

  resolve_address-found :
      (c : Config) (ip key v : Text)
      → canonical ip ≡ some key
      → lookup key c.address_overrides ≡ some v
      → resolve_address canonical c ip ≡ v
  unfolding resolve_address
  resolve_address-found c ip key v h e =
      ap
        (λ (o : Option Text). dial (lookup (elim o [ none ↦ ip | some x ↦ x ]) c.address_overrides))
        h
      ∙ ap dial e
    where
      dial : Option Text → Text
      dial o = elim o [ none ↦ join_host_port ip | some address ↦ address ]

  Dials-Kept :
      (c : Config) (es : List (Text × Text)) → All (Kept c.address_overrides) es → All (Dials c) es
  Dials-Kept c [] h = tt
  Dials-Kept c (e ∷ es) ((key, known, found), h) =
      (λ ip same. resolve_address-found c ip key e.1 (same ∙ known) found, Dials-Kept c es h)

  -- What holds of the configuration `c` of a file when it is loaded as `c'`.
  pub record IsLoaded (c c' : Config) : Type 0 where
    pub some_zone : is_nil c'.zones ≡ false
    pub zones_ok : All IsZone c'.zones
    pub intervals_ok :
        (is_zero c'.probe_interval ≡ false)
        × (is_zero c'.delegation_cache_ttl ≡ false)
        × (is_zero c'.query_timeout ≡ false)
        × (is_zero c'.zone_deadline ≡ false)
    pub overrides_ok : All (Dials c') c.address_overrides

  validate-ok :
      (c c' : Config)
      → validate c ≡ ok c'
      → (zs : List Text) × (c' ≡ record c { zones = zs }) × (is_nil zs ≡ false) × (All IsZone zs)
  unfolding validate
  validate-ok c c' h =
      let (zs, a, b) =
        bind-ok (if is_nil c.zones then err no_zones else check_zones 0 c.zones) _ c' h in
      elim (Bool-cases (is_nil c.zones)) [
        | inl e ↦ ground (arith, rw e at a)
        | inr e ↦
            let (good, same) = check_zones-IsZone 0 c.zones zs (rw e at a) in
            (zs, sym (ok-inj _ _ b), same ∙ e, good)
      ]

  default_to-nonzero : (n : ℕ) (d : ℤ) → is_zero (default_to (suc n) d) ≡ false
  default_to-nonzero n (pos ℕ.zero) = refl
  default_to-nonzero n (pos (suc m)) = refl
  default_to-nonzero n (negsuc m) = refl

  -- A configuration that is loaded has a zone; its zones are trimmed and have a dot each; none of
  -- its four durations is 0; and the probers dial each address that the file overrides, in whatever
  -- spelling, at the value that the file gives for it.
  pub load-IsLoaded :
      (file : Text) (unmarshal : Text → Option Config) (c c' : Config)
      → unmarshal file ≡ some c
      → load canonical (some file) unmarshal ≡ ok c'
      → IsLoaded c c'
  unfolding load load_parsed canonicalise_override_keys apply_defaults
  load-IsLoaded file unmarshal c c' e h =
      let (c1, a, b) =
        bind-ok (canonicalise_override_keys canonical (apply_defaults c)) _ c'
          (ap (load_parsed canonical) (sym e) ∙ h) in
      let (m, kept, is) = bind-ok (canonical_overrides canonical [] c.address_overrides) _ c1 a in
      let (zs, is', full, good) = validate-ok c1 c' b in
      subst (IsLoaded c)
        (sym (is' ∙ ap (λ (x : Config). record x { zones = zs }) (sym (ok-inj _ _ is))))
        (record {
          some_zone = full;
          zones_ok = good;
          intervals_ok = (
            default_to-nonzero _ c.probe_interval,
            default_to-nonzero _ c.delegation_cache_ttl,
            default_to-nonzero _ c.query_timeout,
            default_to-nonzero _ c.zone_deadline,
          );
          overrides_ok =
              Dials-Kept _ c.address_overrides (overrides-Kept c.address_overrides [] m kept);
        })
