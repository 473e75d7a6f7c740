-- ===== src/Testutil/Network/Delegations.antt =====
-- Delegation walks over the servers of a fixture.
use dnshealth_exporter.Prelude.{
  ℕ, suc, ◌≡◌, refl, sym, ap, ◌∙◌, true, false, some, List, [], ◌∷◌, ltb, leb, if◌then◌else◌, arith,
  Bool-cases, inl, inr, &&-eq-true,
}
use dnshealth_exporter.Text.{Text, ◌==◌}
use dnshealth_exporter.Dns.{Net, Rr, owner, Reply, History, iterative, success, type_ns}
use dnshealth_exporter.Dns.Errors.{plain, ok, err}
use dnshealth_exporter.Resolver.{ns_targets, referral_glue, first_glued}
use dnshealth_exporter.Resolver.Delegation.{DelegationResult, extract_delegation, walk_delegation}
use dnshealth_exporter.Resolver.Delegation.Chains.{
  Chain, answers, delegates, refers, Replies, walk_delegation-Chain,
}
use dnshealth_exporter.Testutil.Server.Heads.{
  matched-head, ns_targets-head, find_referral-head, equal_fold-shorter, equal_fold-same,
}
use dnshealth_exporter.Testutil.Server.{
  TestServer, reply_to, answer_with, has_type, matched, glue_of, find_referral, respond,
}
use dnshealth_exporter.Testutil.Network.{DnsFixture, find_server, ClientErrors, fixture_net}
use dnshealth_exporter.Testutil.Network.Dropped.{Answers, exchange_with-dropping}

-- A server that answers each question with what its records give.
pub record IsHealthy (srv : TestServer) : Type 0 where
  pub answering : Answers srv
  pub no_drops : srv.options.drop_first_n ≡ 0
  pub no_rcode : srv.options.rcode ≡ success

module _ (srv : TestServer) (zone : Text) (n : Rr) (more : List Rr) where
  respond-parent :
      IsHealthy srv
      → srv.referral ≡ true
      → matched zone type_ns srv.records ≡ n ∷ more
      → respond srv (iterative zone type_ns)
        ≡ record reply_to { authority = n ∷ more; additional = glue_of (n ∷ more) srv.records }
  unfolding respond
  respond-parent healthy r m = rw (healthy.no_rcode, r, m) refl

  respond-authoritative :
      IsHealthy srv
      → srv.referral ≡ false
      → matched zone type_ns srv.records ≡ n ∷ more
      → respond srv (iterative zone type_ns) ≡ answer_with srv type_ns (n ∷ more)
  unfolding respond
  respond-authoritative healthy r m = rw (healthy.no_rcode, r, m) refl

  respond-pointer :
      (extra : List Rr)
      → IsHealthy srv
      → srv.referral ≡ true
      → matched zone type_ns srv.records ≡ []
      → find_referral srv.records zone ≡ (n ∷ more, extra)
      → respond srv (iterative zone type_ns)
        ≡ record reply_to { authority = n ∷ more; additional = extra }
  unfolding respond
  respond-pointer extra healthy r m e = rw (healthy.no_rcode, r, m, e) refl

module _ (client : ClientErrors) (f : DnsFixture) (fqdn resolve : Text → Text) (root : Text)
    (timeout : ℕ) where
  abbrev net : Net
  net = fixture_net client f fqdn resolve root

  -- In the fixture the server at an address leads to the delegation of a zone over a number of
  -- referrals: it has NS records for the zone, or it is a parent that has none, whose nearest NS
  -- records have glue for the next server.
  pub data Leads (zone : Text) : ℕ → Text → DelegationResult → Type 0 where
    holds :
        {addr : Text} (srv : TestServer) (n : Rr) (more : List Rr)
        → find_server addr f ≡ some srv
        → IsHealthy srv
        → matched zone type_ns srv.records ≡ n ∷ more
        → Leads zone 0 addr (extract_delegation addr (n ∷ more) (glue_of (n ∷ more) srv.records))
    points :
        {addr : Text} {k : ℕ} {d : DelegationResult} (srv : TestServer) (n : Rr)
        (more extra : List Rr) (c : ℕ) (next : Text)
        → find_server addr f ≡ some srv
        → IsHealthy srv
        → srv.referral ≡ true
        → matched zone type_ns srv.records ≡ []
        → find_referral srv.records zone ≡ (n ∷ more, extra)
        → first_glued net (referral_glue extra) (ns_targets (n ∷ more)) ≡ c ∷ next
        → Leads zone k (c ∷ next) d
        → Leads zone (suc k) addr d

  Replies-respond :
      (zone addr : Text) (srv : TestServer) (r : Reply)
      → find_server addr f ≡ some srv
      → IsHealthy srv
      → respond srv (iterative zone type_ns) ≡ r
      → Replies net timeout zone addr r
  Replies-respond zone addr srv r e healthy eq h =
      exchange_with-dropping client f h (iterative zone type_ns) timeout addr srv e
        healthy.answering
      ∙ undropped srv.options.drop_first_n _ healthy.no_drops
      ∙ ap ok eq
    where
      undropped :
          (limit k : ℕ)
          → limit ≡ 0
          → (if leb limit k
              then ok (respond srv (iterative zone type_ns))
              else err client.timed_out)
            ≡ ok (respond srv (iterative zone type_ns))
      undropped limit k z = ground arith

  holds-Chain :
      (zone addr : Text) (srv : TestServer) (n : Rr) (more : List Rr)
      → find_server addr f ≡ some srv
      → IsHealthy srv
      → matched zone type_ns srv.records ≡ n ∷ more
      → Chain net timeout zone 0 addr
          (extract_delegation addr (n ∷ more) (glue_of (n ∷ more) srv.records))
  holds-Chain zone addr srv n more e healthy m =
      let (same, is) =
        &&-eq-true (owner n == zone) (has_type type_ns n)
          (matched-head zone srv.records n more m) in
      let (t, k) = ns_targets-head n more is in
      elim (Bool-cases srv.referral) [
        | inl r ↦
            let reply = record reply_to {
              authority = n ∷ more;
              additional = glue_of (n ∷ more) srv.records;
            } in
            delegates reply n more t (ns_targets more)
              (Replies-respond zone addr srv reply e healthy
                (respond-parent srv zone n more healthy r m))
              refl refl k (equal_fold-same (owner n) zone same)
        | inr r ↦
            let reply = answer_with srv type_ns (n ∷ more) in
            answers reply
              (Replies-respond zone addr srv reply e healthy
                (respond-authoritative srv zone n more healthy r m))
              refl
      ]

  pub Leads-Chain :
      (zone : Text) (k : ℕ) (addr : Text) (d : DelegationResult)
      → Leads zone k addr d
      → Chain net timeout zone k addr d
  Leads-Chain zone k addr d (holds srv n more e healthy m) =
      holds-Chain zone addr srv n more e healthy m
  Leads-Chain zone (suc k) addr d (points srv n more extra c next e healthy r m p g lead) =
      let (short, is) = find_referral-head srv.records zone n more extra p in
      let (t, h) = ns_targets-head n more is in
      let reply = record reply_to { authority = n ∷ more; additional = extra } in
      refers reply n more t (ns_targets more) c next
        (Replies-respond zone addr srv reply e healthy
          (respond-pointer srv zone n more extra healthy r m p))
        refl refl h (equal_fold-shorter (owner n) zone short)
        (ap (first_glued net (referral_glue extra)) (sym h) ∙ g)
        (Leads-Chain zone k (c ∷ next) d lead)

  -- Over a fixture whose healthy servers lead from the root to the one that has the NS records of
  -- the zone, the walk gives the delegation of those records with their glue if there are less than
  -- ten referrals on the way, and an error if there are ten or more.
  pub walk_delegation-fixture :
      (zone : Text) (k : ℕ) (d : DelegationResult) (h : History)
      → Leads (fqdn zone) k root d
      → (walk_delegation net timeout zone h).0 ≡ (if ltb k 10 then ok d else err plain)
  walk_delegation-fixture zone k d h lead =
      walk_delegation-Chain net timeout zone k d h (Leads-Chain (fqdn zone) k root d lead)
