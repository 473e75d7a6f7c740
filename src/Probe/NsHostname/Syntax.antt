-- ===== src/Probe/NsHostname/Syntax.antt =====
-- The host names that the syntax check accepts, as RFC 952 and RFC 1123 describe them.
use dnshealth_exporter.Prelude.{
  ℕ, ◌≤◌, true, false, List, [], ◌∷◌, ◌++◌, ◌≡◌, ◌≢◌, ◌⊎◌, ◌↔◌, refl, sym, ap, ◌∙◌, arith, eqb, All,
  Bool-cases, inl, inr, length, is_nil, &&-eq-true, eqb_iff, false≢true, ◌&&◌,
}
use dnshealth_exporter.Text.{Text, split, join, trim_suffix}
use dnshealth_exporter.Text.Splitting.{Lacks, split-join, join-split, split-ne-nil}
use dnshealth_exporter.Probe.NsHostname.{
  is_label_byte, ends_in_hyphen, starts_with_hyphen, all_label_bytes, is_valid_hostname_label,
  all_valid_labels, is_valid_stripped, is_valid_ns_hostname,
}

-- A letter, a digit or a hyphen.
abbrev pub IsLabelByte : ℕ → Type 0
IsLabelByte c =
    ((b'a' ≤ c) × (c ≤ b'z')) ⊎ ((b'A' ≤ c) × (c ≤ b'Z')) ⊎ ((b'0' ≤ c) × (c ≤ b'9')) ⊎ (c ≡ b'-')

-- 1 to 63 such bytes, with no hyphen at either end.
pub record IsLabel (label : Text) : Type 0 where
  pub ne_nil : 1 ≤ length label
  pub short : length label ≤ 63
  pub ldh : All IsLabelByte label
  pub head_ok : (rest : Text) → label ≢ b'-' ∷ rest
  pub last_ok : (front : Text) → label ≢ front ++ b'-' ∷ []

-- Labels, at least one, with dots between them, of 253 bytes at most.
pub record IsHostname (name : Text) : Type 0 where
  pub first : Text
  pub others : List Text
  pub joined : name ≡ join (b'.' ∷ []) (first ∷ others)
  pub labels : All IsLabel (first ∷ others)
  pub short : length name ≤ 253

is_label_byte_iff : (c : ℕ) → (is_label_byte c ≡ true) ↔ IsLabelByte c
unfolding is_label_byte
is_label_byte_iff c = ground arith

all_label_bytes_iff : (l : Text) → (all_label_bytes l ≡ true) ↔ All IsLabelByte l
unfolding all_label_bytes
all_label_bytes_iff [] = ground arith
all_label_bytes_iff (c ∷ cs) = ground (arith, is_label_byte_iff c, all_label_bytes_iff cs)

ends_in_hyphen-append : (front : Text) → ends_in_hyphen (front ++ b'-' ∷ []) ≡ true
unfolding ends_in_hyphen
ends_in_hyphen-append [] = refl
ends_in_hyphen-append (c ∷ []) = refl
ends_in_hyphen-append (c ∷ d ∷ front) = ends_in_hyphen-append (d ∷ front)

front_of : (l : Text) → ends_in_hyphen l ≡ true → (front : Text) × (l ≡ front ++ b'-' ∷ [])
unfolding ends_in_hyphen
front_of [] h = cc
front_of (c ∷ []) h = ([], ap (λ d. d ∷ []) ((eqb_iff c b'-').0 h))
front_of (c ∷ d ∷ cs) h = let (front, e) = front_of (d ∷ cs) h in (c ∷ front, ap (◌∷◌ c) e)

ends_in_hyphen_iff :
    (l : Text) → (ends_in_hyphen l ≡ false) ↔ ((front : Text) → l ≢ front ++ b'-' ∷ [])
ends_in_hyphen_iff l = (
  λ h front e. false≢true (sym h ∙ ap ends_in_hyphen e ∙ ends_in_hyphen-append front),
  λ k. elim (Bool-cases (ends_in_hyphen l)) [
    | inl e ↦ let (front, same) = front_of l e in absurd (k front same)
    | inr e ↦ e
  ],
)

starts_with_hyphen_iff :
    (l : Text) → (starts_with_hyphen l ≡ false) ↔ ((rest : Text) → l ≢ b'-' ∷ rest)
unfolding starts_with_hyphen
starts_with_hyphen_iff [] = (λ _ rest. cc, λ _. refl)
starts_with_hyphen_iff (c ∷ cs) = (
  λ h rest e. ground arith,
  λ k. elim (Bool-cases (eqb c b'-')) [
    | inl e ↦ absurd (k cs (ap (λ d. d ∷ cs) ((eqb_iff c b'-').0 e)))
    | inr e ↦ e
  ],
)

is_valid_hostname_label_iff : (l : Text) → (is_valid_hostname_label l ≡ true) ↔ IsLabel l
unfolding is_valid_hostname_label
is_valid_hostname_label_iff [] = (λ h. cc, λ h. absurd (omega (arith, h.ne_nil)))
is_valid_hostname_label_iff (c ∷ cs) =
    let (ldh, ldh') = all_label_bytes_iff (c ∷ cs) in
    let (tail, tail') = ends_in_hyphen_iff (c ∷ cs) in
    let (front, front') = starts_with_hyphen_iff (c ∷ cs) in
    (
      λ h. record {
        ne_nil = omega arith;
        short = ground arith;
        ldh = ldh (ground arith);
        head_ok = front (ground arith);
        last_ok = tail (ground arith);
      },
      λ h. valid_of h.short (front' h.head_ok) (tail' h.last_ok) (ldh' h.ldh),
    )
  where
    valid_of :
        length (c ∷ cs) ≤ 63
        → starts_with_hyphen (c ∷ cs) ≡ false
        → ends_in_hyphen (c ∷ cs) ≡ false
        → all_label_bytes (c ∷ cs) ≡ true
        → is_valid_hostname_label (c ∷ cs) ≡ true
    valid_of a b d e = ground arith

all_valid_labels_iff : (ls : List Text) → (all_valid_labels ls ≡ true) ↔ All IsLabel ls
unfolding all_valid_labels
all_valid_labels_iff [] = ground arith
all_valid_labels_iff (l ∷ ls) =
    let (to, from) = is_valid_hostname_label_iff l in
    let (to', from') = all_valid_labels_iff ls in
    (λ h. let (a, b) = &&-eq-true _ _ h in (to a, to' b), λ h. both_true (from h.0) (from' h.1))
  where
    both_true :
        is_valid_hostname_label l ≡ true
        → all_valid_labels ls ≡ true
        → (is_valid_hostname_label l && all_valid_labels ls) ≡ true
    both_true a b = ground arith

-- The bytes of a label are no dots.
Lacks-dot : (l : Text) → All IsLabelByte l → Lacks b'.' l
Lacks-dot [] h = tt
Lacks-dot (c ∷ cs) (h, hs) = (omega arith, Lacks-dot cs hs)

All-Lacks-dot : (ls : List Text) → All IsLabel ls → All (Lacks b'.') ls
All-Lacks-dot [] h = tt
All-Lacks-dot (l ∷ ls) (h, hs) = (Lacks-dot l h.ldh, All-Lacks-dot ls hs)

IsHostname-valid : (name : Text) → is_valid_stripped name ≡ true → IsHostname name
unfolding is_valid_stripped
IsHostname-valid [] h = cc
IsHostname-valid (c ∷ cs) h =
    let (p, ps, e) = split-ne-nil b'.' (c ∷ cs) in
    let good : all_valid_labels (split b'.' (c ∷ cs)) ≡ true = ground arith in
    record {
      first = p;
      others = ps;
      joined = rw e at (sym (join-split b'.' (c ∷ cs)));
      labels = (all_valid_labels_iff (p ∷ ps)).0 (rw e at good);
      short = ground arith;
    }

join-ne-nil :
    (p : Text) (ps : List Text) → 1 ≤ length p → is_nil (join (b'.' ∷ []) (p ∷ ps)) ≡ false
unfolding join
join-ne-nil [] ps h = absurd (omega arith)
join-ne-nil (c ∷ cs) [] h = refl
join-ne-nil (c ∷ cs) (q ∷ ps) h = refl

valid-IsHostname : (name : Text) → IsHostname name → is_valid_stripped name ≡ true
unfolding is_valid_stripped
valid-IsHostname name h =
    let ls = h.first ∷ h.others in
    let parts : split b'.' name ≡ ls =
      ap (split b'.') h.joined ∙ split-join b'.' h.first h.others (All-Lacks-dot ls h.labels) in
    let good : all_valid_labels (split b'.' name) ≡ true =
      ap all_valid_labels parts ∙ (all_valid_labels_iff ls).1 h.labels in
    let full : is_nil name ≡ false =
      ap is_nil h.joined ∙ join-ne-nil h.first h.others h.labels.0.ne_nil in
    ground (arith, h.short)

-- A host name passes the syntax check exactly when, without one dot at its end, it is of 253 bytes
-- at most and consists of labels with dots between them, each of 1 to 63 letters, digits and
-- hyphens with no hyphen at either end.
pub is_valid_ns_hostname_iff :
    (name : Text) → (is_valid_ns_hostname name ≡ true) ↔ IsHostname (trim_suffix b'.' name)
unfolding is_valid_ns_hostname
is_valid_ns_hostname_iff name =
    (IsHostname-valid (trim_suffix b'.' name), valid-IsHostname (trim_suffix b'.' name))
