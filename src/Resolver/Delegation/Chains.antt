-- ===== src/Resolver/Delegation/Chains.antt =====
-- The walk along a chain of servers that refer to one another with glue.
use dnshealth_exporter.Prelude.{
  ℕ, zero, suc, ◌≡◌, refl, ap, ◌∙◌, Bool, true, false, not, ◌&&◌, List, ◌∷◌, is_nil, ltb,
  if◌then◌else◌, return, arith,
}
use dnshealth_exporter.Text.{Text, equal_fold}
use dnshealth_exporter.Dns.{
  Net, Rr, Reply, Outcome, M, History, iterative, exchange_context, exchanged, type_ns, owner,
}
use dnshealth_exporter.Dns.Errors.{plain, Result, ok, err}
use dnshealth_exporter.Resolver.{ns_targets, referral_glue, first_glued}
use dnshealth_exporter.Resolver.Delegation.{
  DelegationResult, extract_delegation, max_depth, walk_from, walk_delegation, on_reply,
  follow_authority, follow_referral, next_server, or_else, step_to,
}

within-first : {A : Type 0} (left : ℕ) (x y : A) → x ≡ (if ltb 0 (suc left) then x else y)
within-first left x y = ground arith

within-suc :
    {A : Type 0} (k left : ℕ) (x y : A)
    → (if ltb k left then x else y) ≡ (if ltb (suc k) (suc left) then x else y)
within-suc k left x y = ground arith

module _ (net : Net) (timeout : ℕ) (zone : Text) where
  -- The server always gives one reply to the question for the name servers of the zone.
  abbrev pub Replies : Text → Reply → Type 0
  Replies server r = (h : History) → net.exchange h (iterative zone type_ns) timeout server ≡ ok r

  abbrev pub is_answer : Reply → Bool
  is_answer r = r.authoritative && not (is_nil r.answer)

  -- A server whose reply holds the delegation of the zone, behind a number of servers each of which
  -- refers to a zone above it and gives glue for the next one.
  pub data Chain : ℕ → Text → DelegationResult → Type 0 where
    answers :
        {server : Text} (r : Reply)
        → Replies server r
        → is_answer r ≡ true
        → Chain 0 server (extract_delegation server r.answer r.additional)
    delegates :
        {server : Text} (r : Reply) (n : Rr) (ns : List Rr) (t : Text) (ts : List Text)
        → Replies server r
        → is_answer r ≡ false
        → r.authority ≡ n ∷ ns
        → ns_targets (n ∷ ns) ≡ t ∷ ts
        → equal_fold (owner n) zone ≡ true
        → Chain 0 server (extract_delegation server (n ∷ ns) r.additional)
    refers :
        {server : Text} {k : ℕ} {d : DelegationResult} (r : Reply) (n : Rr) (ns : List Rr)
        (t : Text) (ts : List Text) (c : ℕ) (next : Text)
        → Replies server r
        → is_answer r ≡ false
        → r.authority ≡ n ∷ ns
        → ns_targets (n ∷ ns) ≡ t ∷ ts
        → equal_fold (owner n) zone ≡ false
        → first_glued net (referral_glue r.additional) (t ∷ ts) ≡ c ∷ next
        → Chain k (c ∷ next) d
        → Chain (suc k) server d

  abbrev asked : Text → History → History
  asked server h = exchanged (iterative zone type_ns) timeout server ∷ h

  walk_from-reply :
      (left : ℕ) (server : Text) (r : Reply) (h : History)
      → Replies server r
      → walk_from net timeout zone (suc left) server h
        ≡ on_reply net timeout zone (walk_from net timeout zone left) server (ok r) (asked server h)
  unfolding walk_from exchange_context
  walk_from-reply left server r h e =
      ap
        (λ (o : Outcome).
          on_reply net timeout zone (walk_from net timeout zone left) server o
            (exchanged (iterative zone type_ns) timeout server ∷ h))
        (e h)

  module _ (walk : Text → M (Result DelegationResult)) (server : Text) (r : Reply)
      (h : History) where
    on_reply-answer :
        is_answer r ≡ true
        → on_reply net timeout zone walk server (ok r) h
          ≡ (ok (extract_delegation server r.answer r.additional), h)
    unfolding on_reply
    on_reply-answer e =
        ap
          (λ (b : Bool).
            (if b
                then return (ok (extract_delegation server r.answer r.additional))
                else follow_authority net timeout zone walk server r r.authority)
              h)
          e

    on_reply-referral :
        (n : Rr) (ns : List Rr) (t : Text) (ts : List Text)
        → is_answer r ≡ false
        → r.authority ≡ n ∷ ns
        → ns_targets (n ∷ ns) ≡ t ∷ ts
        → on_reply net timeout zone walk server (ok r) h
          ≡ follow_referral net timeout zone walk server r (owner n) (t ∷ ts) h
    unfolding on_reply follow_authority
    on_reply-referral n ns t ts e a k =
        ap
          (λ (b : Bool).
            (if b
                then return (ok (extract_delegation server r.answer r.additional))
                else follow_authority net timeout zone walk server r r.authority)
              h)
          e
        ∙ ap (λ rrs. follow_authority net timeout zone walk server r rrs h) a
        ∙ ap (λ hosts. follow_referral net timeout zone walk server r (owner n) hosts h) k

    follow_referral-here :
        (name t : Text) (ts : List Text)
        → equal_fold name zone ≡ true
        → follow_referral net timeout zone walk server r name (t ∷ ts) h
          ≡ (ok (extract_delegation server r.authority r.additional), h)
    unfolding follow_referral
    follow_referral-here name t ts e = rw e refl

    follow_referral-next :
        (name t : Text) (ts : List Text) (c : ℕ) (next : Text)
        → equal_fold name zone ≡ false
        → first_glued net (referral_glue r.additional) (t ∷ ts) ≡ c ∷ next
        → follow_referral net timeout zone walk server r name (t ∷ ts) h ≡ walk (c ∷ next) h
    unfolding follow_referral next_server or_else step_to
    follow_referral-next name t ts c next e g = rw (e, g) refl

  -- What the walk gives at the head of a chain, with a number of rounds left.
  walk_from-Chain :
      (left k : ℕ) (server : Text) (d : DelegationResult) (h : History)
      → Chain k server d
      → (walk_from net timeout zone left server h).0 ≡ (if ltb k left then ok d else err plain)
  unfolding walk_from
  walk_from-Chain zero k server d h chain = ground arith
  walk_from-Chain (suc left) k server d h (answers r e a) =
      ap (λ (x : Result DelegationResult × History). x.0)
        (walk_from-reply left server r h e
          ∙ on_reply-answer (walk_from net timeout zone left) server r (asked server h) a)
      ∙ within-first left (ok (extract_delegation server r.answer r.additional)) (err plain)
  walk_from-Chain (suc left) k server d h (delegates r n ns t ts e a b c f) =
      ap (λ (x : Result DelegationResult × History). x.0)
        (walk_from-reply left server r h e
          ∙ on_reply-referral (walk_from net timeout zone left) server r (asked server h) n ns t ts
              a b c
          ∙ follow_referral-here (walk_from net timeout zone left) server r (asked server h)
              (owner n) t ts f)
      ∙ ap (λ rrs. ok (extract_delegation server rrs r.additional)) b
      ∙ within-first left (ok (extract_delegation server (n ∷ ns) r.additional)) (err plain)
  walk_from-Chain (suc left) (suc k) server d h (refers r n ns t ts c next e a b f g q chain) =
      ap (λ (x : Result DelegationResult × History). x.0)
        (walk_from-reply left server r h e
          ∙ on_reply-referral (walk_from net timeout zone left) server r (asked server h) n ns t ts
              a b f
          ∙ follow_referral-next (walk_from net timeout zone left) server r (asked server h)
              (owner n) t ts c next g q)
      ∙ walk_from-Chain left k (c ∷ next) d _ chain
      ∙ within-suc k left (ok d) (err plain)

-- Where the servers refer from the root to the delegation of the zone along a chain that gives glue
-- at each step, the walk gives that delegation if the chain has less than ten steps, and an
-- error if it has ten or more.
pub walk_delegation-Chain :
    (net : Net) (timeout : ℕ) (zone : Text) (k : ℕ) (d : DelegationResult) (h : History)
    → Chain net timeout (net.fqdn zone) k net.root_server d
    → (walk_delegation net timeout zone h).0 ≡ (if ltb k 10 then ok d else err plain)
unfolding walk_delegation
walk_delegation-Chain net timeout zone k d h chain =
    walk_from-Chain net timeout (net.fqdn zone) max_depth k net.root_server d h chain
