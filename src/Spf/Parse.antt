-- ===== src/Spf/Parse.antt =====
-- prober/spf.go: parseSPFMechanisms.
use dnshealth_exporter.Prelude.{Bool, true, false, ◌||◌, List, [], ◌∷◌, if◌then◌else◌}
use dnshealth_exporter.Text.{
  Text, bytes, ◌==◌, to_lower, equal_fold, fields, has_prefix, drop, contains_text,
}
use dnshealth_exporter.Spf.{body_of}

pub data SpfMechKind : Type 0 where
  mech_other mech_all mech_include mech_redirect mech_a mech_mx mech_ptr mech_exists : SpfMechKind

pub record SpfMechanism : Type 0 where
  pub kind : SpfMechKind
  pub target : Text
  pub has_macro : Bool

abbrev pub plain_mech : SpfMechKind → SpfMechanism
plain_mech k = record { kind = k; target = []; has_macro = false }

unfoldable pub targeted : SpfMechKind → Text → SpfMechanism
unfolding contains_text
targeted k t = record { kind = k; target = t; has_macro = contains_text t (bytes "%{") }

-- The switch over a term without its qualifier, and the same in lower case.
unfoldable pub classify_term : Text → Text → SpfMechanism
unfolding ◌==◌ has_prefix targeted drop
classify_term body low =
    if low == bytes "all"
    then plain_mech mech_all
    else if has_prefix low (bytes "include:")
    then targeted mech_include (drop 8 body)
    else if has_prefix low (bytes "redirect=")
    then targeted mech_redirect (drop 9 body)
    else if low == bytes "a" || has_prefix low (bytes "a:") || has_prefix low (bytes "a/")
    then plain_mech mech_a
    else if low == bytes "mx" || has_prefix low (bytes "mx:") || has_prefix low (bytes "mx/")
    then plain_mech mech_mx
    else if low == bytes "ptr" || has_prefix low (bytes "ptr:")
    then plain_mech mech_ptr
    else if has_prefix low (bytes "exists:")
    then plain_mech mech_exists
    else plain_mech mech_other

-- The terms of a record; every field that is the version token is skipped.
unfoldable pub mechanisms : List Text → List SpfMechanism
unfolding equal_fold classify_term to_lower
mechanisms [] = []
mechanisms (f ∷ fs) =
    if equal_fold f (bytes "v=spf1")
    then mechanisms fs
    else classify_term (body_of f) (to_lower (body_of f)) ∷ mechanisms fs

abbrev pub is_all : SpfMechanism → Bool
is_all m = elim m.kind [ mech_all ↦ true | _ ↦ false ]

unfoldable pub has_all : List SpfMechanism → Bool
has_all [] = false
has_all (m ∷ ms) = is_all m || has_all ms

unfoldable pub parse_spf_mechanisms : Text → List SpfMechanism × Bool
unfolding mechanisms fields has_all
parse_spf_mechanisms record' = (mechanisms (fields record'), has_all (mechanisms (fields record')))
