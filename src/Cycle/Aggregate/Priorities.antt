-- ===== src/Cycle/Aggregate/Priorities.antt =====
-- The least priorities of the MX targets of the zones, as the runner notes them.
use dnshealth_exporter.Prelude.{
  ℕ, Bool, true, false, ◌&&◌, Option, none, some, List, [], ◌∷◌, ◌++◌, ◌≡◌, inl, inr, refl, ap, ◌∙◌,
  arith, if◌then◌else◌, ltb, Bool-cases,
}
use dnshealth_exporter.Text.{Text, ◌==◌, lookup, insert}
use dnshealth_exporter.Text.Equality.{==_iff, lookup-insert}
use dnshealth_exporter.Text.Maps.{is_distinct, map_keys, is_distinct-map_keys-insert}
use dnshealth_exporter.Cycle.Aggregate.{
  MxRr, MinPriorities, lesser, or_no_targets, targets_of, note_priority, zone_min,
}

-- The less of two priorities, where none is no priority.
abbrev pub omin : Option ℕ → Option ℕ → Option ℕ
omin o none = o
omin o (some p) = some (lesser o p)

omin_assoc : (a b c : Option ℕ) → omin (omin a b) c ≡ omin a (omin b c)
omin_assoc a b none = refl
omin_assoc none none (some p) = refl
omin_assoc none (some q) (some p) = refl
omin_assoc (some r) none (some p) = refl
omin_assoc (some r) (some q) (some p) = ap some (ground arith)

pub omin-none : (a : Option ℕ) → omin none a ≡ a
omin-none none = refl
omin-none (some p) = refl

-- The least priority of the records that satisfy a test.
abbrev pub least : (MxRr → Bool) → List MxRr → Option ℕ
least test [] = none
least test (r ∷ rs) = omin (if test r then some r.priority else none) (least test rs)

abbrev pub of_zone : Text → MxRr → Bool
of_zone zone r = r.zone == zone

abbrev pub of_target : Text → Text → MxRr → Bool
of_target zone target r = r.zone == zone && r.target == target

zone_min-omin :
    (ts : List (Text × ℕ)) (a : Option ℕ) (p : ℕ)
    → zone_min (omin a (some p)) ts ≡ omin (zone_min a ts) (some p)
unfolding zone_min
zone_min-omin [] a p = refl
zone_min-omin ((t, q) ∷ ts) a p =
    ap (λ (x : Option ℕ). zone_min x ts) (swap a) ∙ zone_min-omin ts (some (lesser a q)) p
  where
    swap :
        (o : Option ℕ) → some (lesser (some (lesser o p)) q) ≡ some (lesser (some (lesser o q)) p)
    swap none = ap some (ground arith)
    swap (some x) = ap some (ground arith)

lookup-skip :
    (j t : Text) (q : ℕ) (ts : List (Text × ℕ))
    → (j == t) ≡ false
    → lookup t ((j, q) ∷ ts) ≡ lookup t ts
unfolding lookup
lookup-skip j t q ts e = rw e refl

zone_min-insert :
    (ts : List (Text × ℕ)) (a : Option ℕ) (t : Text) (p : ℕ)
    → zone_min a (insert t (lesser (lookup t ts) p) ts) ≡ omin (zone_min a ts) (some p)
unfolding zone_min insert lookup
zone_min-insert [] a t p = refl
zone_min-insert ((j, q) ∷ ts) a t p = elim (Bool-cases (j == t)) [
  | inl e ↦
      rw e (ap (λ (x : Option ℕ). zone_min x ts) (merge a) ∙ zone_min-omin ts (some (lesser a q)) p)
  | inr e ↦ rw e (
      ap (λ (o : Option ℕ). zone_min (some (lesser a q)) (insert t (lesser o p) ts))
        (lookup-skip j t q ts e)
      ∙ zone_min-insert ts (some (lesser a q)) t p)
]
  where
    merge :
        (o : Option ℕ)
        → some (lesser o (if ltb p q then p else q)) ≡ some (lesser (some (lesser o q)) p)
    merge none = refl
    merge (some x) = ap some (ground arith)

note-targets :
    (r : MxRr) (m : MinPriorities) (zone : Text)
    → targets_of zone (note_priority r m) ≡ (
        if r.zone == zone
        then insert r.target
            (lesser (lookup r.target (targets_of zone m)) r.priority)
            (targets_of zone m)
        else targets_of zone m)
unfolding note_priority
note-targets r m zone =
    let ts = targets_of r.zone m in
    ap or_no_targets
      (lookup-insert r.zone zone (insert r.target (lesser (lookup r.target ts) r.priority) ts) m)
    ∙ elim (Bool-cases (r.zone == zone)) [
      | inl e ↦ rw (e, (==_iff r.zone zone).0 e) refl
      | inr e ↦ rw e refl
    ]

note-zone_min :
    (r : MxRr) (m : MinPriorities) (zone : Text)
    → zone_min none (targets_of zone (note_priority r m))
      ≡ omin (zone_min none (targets_of zone m)) (if of_zone zone r then some r.priority else none)
note-zone_min r m zone =
    ap (zone_min none) (note-targets r m zone) ∙ elim (Bool-cases (r.zone == zone)) [
      | inl e ↦ rw (e) (zone_min-insert (targets_of zone m) none r.target r.priority)
      | inr e ↦ rw e refl
    ]

note-lookup :
    (r : MxRr) (m : MinPriorities) (zone target : Text)
    → lookup target (targets_of zone (note_priority r m))
      ≡ omin
          (lookup target (targets_of zone m))
          (if of_target zone target r then some r.priority else none)
note-lookup r m zone target =
    ap (lookup target) (note-targets r m zone) ∙ elim (Bool-cases (r.zone == zone)) [
      | inl e ↦ rw e (
          lookup-insert r.target target (lesser (lookup r.target (targets_of zone m)) r.priority)
            (targets_of zone m)
          ∙ elim (Bool-cases (r.target == target)) [
            | inl k ↦ rw (k, (==_iff r.target target).0 k) refl
            | inr k ↦ rw k refl
          ])
      | inr e ↦ rw e refl
    ]

-- The priorities of all the records.
unfoldable pub note_all : List MxRr → MinPriorities → MinPriorities
unfolding note_priority
note_all [] m = m
note_all (r ∷ rs) m = note_all rs (note_priority r m)

pub note_all-zone_min :
    (rs : List MxRr) (m : MinPriorities) (zone : Text)
    → zone_min none (targets_of zone (note_all rs m))
      ≡ omin (zone_min none (targets_of zone m)) (least (of_zone zone) rs)
unfolding note_all
note_all-zone_min [] m zone = refl
note_all-zone_min (r ∷ rs) m zone =
    note_all-zone_min rs (note_priority r m) zone
    ∙ ap (λ (o : Option ℕ). omin o (least (of_zone zone) rs)) (note-zone_min r m zone)
    ∙ omin_assoc (zone_min none (targets_of zone m)) _ (least (of_zone zone) rs)

pub note_all-lookup :
    (rs : List MxRr) (m : MinPriorities) (zone target : Text)
    → lookup target (targets_of zone (note_all rs m))
      ≡ omin (lookup target (targets_of zone m)) (least (of_target zone target) rs)
unfolding note_all
note_all-lookup [] m zone target = refl
note_all-lookup (r ∷ rs) m zone target =
    note_all-lookup rs (note_priority r m) zone target
    ∙ ap (λ (o : Option ℕ). omin o (least (of_target zone target) rs)) (note-lookup r m zone target)
    ∙ omin_assoc (lookup target (targets_of zone m)) _ (least (of_target zone target) rs)

pub note_all-append :
    (a b : List MxRr) (m : MinPriorities) → note_all (a ++ b) m ≡ note_all b (note_all a m)
unfolding note_all
note_all-append [] b m = refl
note_all-append (r ∷ a) b m = note_all-append a b (note_priority r m)

-- No zone and, within a zone, no target comes twice.
unfoldable pub AllDistinct : MinPriorities → Type 0
AllDistinct [] = Unit
AllDistinct ((zone, ts) ∷ m) = (is_distinct (map_keys ts) ≡ true) × AllDistinct m

AllDistinct-insert :
    (zone : Text) (ts : List (Text × ℕ)) (m : MinPriorities)
    → is_distinct (map_keys ts) ≡ true
    → AllDistinct m
    → AllDistinct (insert zone ts m)
unfolding AllDistinct insert
AllDistinct-insert zone ts [] h k = (h, tt)
AllDistinct-insert zone ts ((z, us) ∷ m) h (k, ks) = elim (Bool-cases (z == zone)) [
  | inl e ↦ rw e (h, ks)
  | inr e ↦ rw e (k, AllDistinct-insert zone ts m h ks)
]

targets_of-distinct :
    (zone : Text) (m : MinPriorities)
    → AllDistinct m
    → is_distinct (map_keys (targets_of zone m)) ≡ true
unfolding AllDistinct lookup is_distinct map_keys
targets_of-distinct zone [] h = refl
targets_of-distinct zone ((z, us) ∷ m) (k, ks) = elim (Bool-cases (z == zone)) [
  | inl e ↦ rw e k
  | inr e ↦ rw e (targets_of-distinct zone m ks)
]

pub note_all-distinct :
    (rs : List MxRr) (m : MinPriorities)
    → is_distinct (map_keys m) ≡ true
    → AllDistinct m
    → (is_distinct (map_keys (note_all rs m)) ≡ true) × AllDistinct (note_all rs m)
unfolding note_all note_priority
note_all-distinct [] m h k = (h, k)
note_all-distinct (r ∷ rs) m h k =
    let ts = targets_of r.zone m in
    note_all-distinct rs (note_priority r m) (is_distinct-map_keys-insert r.zone _ m h) (
      AllDistinct-insert r.zone _ m
        (is_distinct-map_keys-insert r.target (lesser (lookup r.target ts) r.priority) ts
          (targets_of-distinct r.zone m k))
        k)
