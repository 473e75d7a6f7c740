-- ===== src/Dmarc/Laws.antt =====
-- What the tags of a DMARC record come to.
use dnshealth_exporter.Prelude.{
  true, false, ◌||◌, Option, none, some, List, [], ◌∷◌, ◌≡◌, refl, sym, ap, ◌∙◌, arith,
  if◌then◌else◌, is_nil, any, eqb, ltb, length, ℕ, suc, Bool, ◌&&◌, ◌++◌, All, false≢true,
  Bool-cases, inl, inr,
}
use dnshealth_exporter.Text.{
  Text, bytes, ◌==◌, to_lower, lower, equal_fold, take, drop, trim_space, split, split2, lookup,
  insert,
}
use dnshealth_exporter.Spf.{has_version, ends_token}
use dnshealth_exporter.Text.Equality.{==_iff, lookup-insert}
use dnshealth_exporter.Dmarc.{
  DmarcResult, keep_first, add_tag, add_tags, parse_dmarc_tags, is_policy, tag_value, policy_of,
  is_dmarc_record, has_tag, select_dmarc, dmarc_of, analyze_dmarc,
}

-- The value of a part of a record, if it is of the key: both are trimmed and in lower case.
abbrev pub value_for : Text → Option (Text × Text) → Option Text
value_for key none = none
value_for key (some (k, v)) =
    if to_lower (trim_space k) == key then some (to_lower (trim_space v)) else none

-- The value of the first part that is of the key.
abbrev pub first_value : Text → List Text → Option Text
first_value key [] = none
first_value key (part ∷ parts) = elim (value_for key (split2 b'=' part)) [
  | none ↦ first_value key parts
  | some v ↦ some v
]

abbrev pub or_else : Option Text → Option Text → Option Text
or_else none o = o
or_else (some v) o = some v

or_else_assoc : (a b c : Option Text) → or_else (or_else a b) c ≡ or_else a (or_else b c)
or_else_assoc none b c = refl
or_else_assoc (some v) b c = refl

-- A key that the loop over the parts keeps.
abbrev pub IsKey : Text → Type 0
IsKey key = (is_nil key ≡ false) × ((key == bytes "v") ≡ false)

or_else-none : (a : Option Text) → or_else a none ≡ a
or_else-none none = refl
or_else-none (some v) = refl

lookup-keep_first :
    (key k v : Text) (tags : List (Text × Text))
    → lookup key (keep_first k v tags)
      ≡ or_else (lookup key tags) (if k == key then some v else none)
lookup-keep_first key k v tags = by_old (lookup k tags) refl
  where
    same_key : (k == key) ≡ true → lookup k tags ≡ lookup key tags
    same_key e = ap (λ t. lookup t tags) ((==_iff k key).0 e)

    by_old :
        (o : Option Text)
        → lookup k tags ≡ o
        → lookup key (elim o [ none ↦ insert k v tags | some _ ↦ tags ])
          ≡ or_else (lookup key tags) (if k == key then some v else none)
    by_old none e = elim (Bool-cases (k == key)) [
      | inl q ↦ lookup-insert k key v tags ∙ rw (q, sym (same_key q), e) refl
      | inr q ↦ lookup-insert k key v tags ∙ rw (q, or_else-none (lookup key tags)) refl
    ]
    by_old (some w) e = elim (Bool-cases (k == key)) [
      | inl q ↦ rw (q, sym (same_key q), e) refl
      | inr q ↦ rw (q, or_else-none (lookup key tags)) refl
    ]

lookup-add_tag :
    (key : Text) (tags : List (Text × Text)) (part : Option (Text × Text))
    → IsKey key
    → lookup key (add_tag tags part) ≡ or_else (lookup key tags) (value_for key part)
unfolding add_tag
lookup-add_tag key tags none h = sym (or_else-none (lookup key tags))
lookup-add_tag key tags (some (k, v)) (full, other) =
    elim (Bool-cases (is_nil (to_lower (trim_space k)) || to_lower (trim_space k) == bytes "v")) [
      | inl e ↦ rw (e, differs (to_lower (trim_space k)) e, or_else-none (lookup key tags)) refl
      | inr e ↦
          rw e (lookup-keep_first key (to_lower (trim_space k)) (to_lower (trim_space v)) tags)
    ]
  where
    differs : (t : Text) → (is_nil t || t == bytes "v") ≡ true → (t == key) ≡ false
    differs t e = elim (Bool-cases (t == key)) [
      | inl q ↦ ground (arith, full, other, rw ((==_iff t key).0 q) at e)
      | inr q ↦ q
    ]

lookup-add_tags :
    (key : Text) (parts : List Text) (tags : List (Text × Text))
    → IsKey key
    → lookup key (add_tags tags parts) ≡ or_else (lookup key tags) (first_value key parts)
unfolding add_tags
lookup-add_tags key [] tags h = sym (or_else-none (lookup key tags))
lookup-add_tags key (part ∷ parts) tags h =
    lookup-add_tags key parts (add_tag tags (split2 b'=' part)) h
    ∙ ap (λ (o : Option Text). or_else o (first_value key parts))
        (lookup-add_tag key tags (split2 b'=' part) h)
    ∙ or_else_assoc (lookup key tags) (value_for key (split2 b'=' part)) (first_value key parts)
    ∙ ap (or_else (lookup key tags)) (joined (value_for key (split2 b'=' part)))
  where
    joined :
        (o : Option Text)
        → or_else o (first_value key parts)
          ≡ (elim o [ none ↦ first_value key parts | some v ↦ some v ])
    joined none = refl
    joined (some v) = refl

-- For a key other than the empty one and "v", the value that the parser finds in a record is the
-- one of the first of the parts between the semicolons that is of the key, and none if no part is.
pub lookup-parse_dmarc_tags :
    (key rec : Text)
    → IsKey key
    → lookup key (parse_dmarc_tags rec) ≡ first_value key (split b';' rec)
unfolding parse_dmarc_tags lookup
lookup-parse_dmarc_tags key rec h = lookup-add_tags key (split b';' rec) [] h

abbrev text_of : Option Text → Text
text_of none = []
text_of (some t) = t

abbrev is_there : Option Text → Bool
is_there none = false
is_there (some t) = true

abbrev policies : List Text
policies = bytes "none" ∷ bytes "quarantine" ∷ bytes "reject" ∷ []

-- One of the three policies, and nothing for another text.
abbrev pub known_policy : Text → Text
known_policy p = if any (λ q. p == q) policies then p else []

-- What is reported of a domain with a record, by the first part of each key.
abbrev pub Reports : Text → DmarcResult → Type 0
Reports rec r =
    let value_of : Text → Option Text = λ key. first_value key (split b';' rec) in
    (r.present ≡ true)
    × (r.raw ≡ rec)
    × (r.valid ≡ any (λ q. text_of (value_of (bytes "p")) == q) policies)
    × (r.policy ≡ known_policy (text_of (value_of (bytes "p"))))
    × (r.subdomain_policy ≡ known_policy (text_of (value_of (bytes "sp"))))
    × (r.rua ≡ is_there (value_of (bytes "rua")))
    × (r.ruf ≡ is_there (value_of (bytes "ruf")))

-- The bytes of a token in either case, and behind them nothing or one of the closers.
unfoldable pub begins_with : Text → List ℕ → Text → Bool
begins_with [] closers [] = true
begins_with [] closers (c ∷ cs) = any (λ d. eqb c d) closers
begins_with (v ∷ vs) closers [] = false
begins_with (v ∷ vs) closers (c ∷ cs) = eqb (lower c) (lower v) && begins_with vs closers cs

-- A TXT record that is a DMARC record.
abbrev pub is_dmarc : Text → Bool
is_dmarc t = begins_with (bytes "v=DMARC1") (b' ' ∷ b';' ∷ b'\t' ∷ []) (trim_space t)

ends_token-any :
    (c : ℕ) (cs : Text) (closers : List ℕ)
    → ends_token (c ∷ cs) closers ≡ any (λ d. eqb c d) closers
unfolding ends_token
ends_token-any c cs [] = refl
ends_token-any c cs (d ∷ ds) = ground (arith, ends_token-any c cs ds)

ltb-suc : (a b : ℕ) → ltb (suc a) (suc b) ≡ ltb a b
ltb-suc a b = ground arith

has_version-begins_with :
    (token : Text) (closers : List ℕ) (r : Text)
    → has_version token closers r ≡ begins_with token closers r
unfolding has_version begins_with equal_fold to_lower ◌==◌ take drop ends_token
has_version-begins_with [] closers [] = refl
has_version-begins_with [] closers (c ∷ cs) = ground (arith, ends_token-any c cs closers)
has_version-begins_with (v ∷ vs) closers [] = ground arith
has_version-begins_with (v ∷ vs) closers (c ∷ cs) = elim (Bool-cases (eqb (lower c) (lower v))) [
  | inl e ↦ rw (e, ltb-suc (length cs) (length vs)) (has_version-begins_with vs closers cs)
  | inr e ↦ rw e (neither (ltb (length (c ∷ cs)) (length (v ∷ vs))))
]
  where
    neither : (b : Bool) → (if b then false else false) ≡ false
    neither true = refl
    neither false = refl

is_policy-any : (p : Text) → is_policy p ≡ any (λ q. p == q) policies
unfolding is_policy
is_policy-any p = ground arith

policy_of-known : (p : Text) → policy_of p ≡ known_policy p
policy_of-known p = rw (is_policy-any p) refl

select_dmarc-first :
    (before : List Text) (r : Text) (later : List Text)
    → All (λ t. is_dmarc t ≡ false) before
    → is_dmarc r ≡ true
    → select_dmarc (before ++ r ∷ later) ≡ trim_space r
unfolding select_dmarc is_dmarc_record
select_dmarc-first [] r later h k =
    rw (has_version-begins_with (bytes "v=DMARC1") (b' ' ∷ b';' ∷ b'\t' ∷ []) (trim_space r) ∙ k)
      refl
select_dmarc-first (t ∷ before) r later (h, hs) k =
    rw (has_version-begins_with (bytes "v=DMARC1") (b' ' ∷ b';' ∷ b'\t' ∷ []) (trim_space t) ∙ h)
      (select_dmarc-first before r later hs k)

-- Of some TXT records the first one that begins with v=DMARC1, in either case and with nothing, a
-- space, a semicolon or a tab behind it, is the one that is reported, trimmed, whatever comes before
-- and behind it: it is valid exactly if the value of its first "p" part is none, quarantine or
-- reject, that value is the policy and the one of its first "sp" part the policy of subdomains, each
-- only if it is one of the three, and it has rua and ruf exactly if it has such a part.
pub analyze_dmarc-Reports :
    (before : List Text) (r : Text) (later : List Text)
    → All (λ t. is_dmarc t ≡ false) before
    → is_dmarc r ≡ true
    → Reports (trim_space r) (analyze_dmarc (before ++ r ∷ later))
unfolding analyze_dmarc begins_with
analyze_dmarc-Reports before r later h k =
    rw (select_dmarc-first before r later h k) (of_text (trim_space r) k)
  where
    tag :
        (key rec : Text)
        → IsKey key
        → tag_value key (parse_dmarc_tags rec) ≡ text_of (first_value key (split b';' rec))
    tag key rec i = ap text_of (lookup-parse_dmarc_tags key rec i)

    there :
        (key rec : Text)
        → IsKey key
        → has_tag key (parse_dmarc_tags rec) ≡ is_there (first_value key (split b';' rec))
    there key rec i = ap is_there (lookup-parse_dmarc_tags key rec i)

    of_text :
        (rec : Text)
        → begins_with (bytes "v=DMARC1") (b' ' ∷ b';' ∷ b'\t' ∷ []) rec ≡ true
        → Reports rec (dmarc_of rec)
    of_text [] e = absurd (false≢true e)
    of_text (c ∷ cs) e = (
      refl,
      refl,
      ap is_policy (tag (bytes "p") (c ∷ cs) (refl, refl))
          ∙ is_policy-any (text_of (first_value (bytes "p") (split b';' (c ∷ cs)))),
      ap policy_of (tag (bytes "p") (c ∷ cs) (refl, refl))
          ∙ policy_of-known (text_of (first_value (bytes "p") (split b';' (c ∷ cs)))),
      ap policy_of (tag (bytes "sp") (c ∷ cs) (refl, refl))
          ∙ policy_of-known (text_of (first_value (bytes "sp") (split b';' (c ∷ cs)))),
      there (bytes "rua") (c ∷ cs) (refl, refl),
      there (bytes "ruf") (c ∷ cs) (refl, refl),
    )
