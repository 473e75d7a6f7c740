-- ===== src/Testutil/Server.antt =====
-- testutil/fixture.go: the handler of a test server and findReferral. The questions are those of
-- the probers, which are never of type ANY and never absent.
pub mod Referral
pub mod Heads
use dnshealth_exporter.Prelude.{
  ℕ, suc, Bool, true, false, not, ◌&&◌, ◌||◌, Option, none, some, List, [], ◌∷◌, ◌++◌, ltb, leb,
  eqb, if◌then◌else◌, is_nil,
}
use dnshealth_exporter.Text.{Text, ◌==◌}
use dnshealth_exporter.Dns.{
  Rr, a, aaaa, ns, mx, txt, cname, soa, other, owner, Rcode, success, Reply, Query, Qtype, type_a,
  type_aaaa, type_ns, type_soa, type_mx, type_txt, type_cname,
}

-- The zero value of Rcode is RcodeSuccess.
pub record ServerOptions : Type 0 where
  pub recursion_available : Bool
  pub rcode : Rcode
  pub drop : Bool
  pub garbage : Bool
  pub drop_first_n : ℕ

pub record TestServer : Type 0 where
  pub addr : Text
  pub records : List Rr
  pub referral : Bool
  pub options : ServerOptions
  pub query_count : ℕ

abbrev pub no_options : ServerOptions
no_options = record {
  recursion_available = false;
  rcode = success;
  drop = false;
  garbage = false;
  drop_first_n = 0;
}

-- What goes back over the wire: the eight bytes, or a message.
pub data Wire : Type 0 where
  random_bytes : Wire
  message : Reply → Wire

-- rr.Header().Rrtype == qtype
abbrev pub has_type : Qtype → Rr → Bool
has_type type_a (a o ip) = true
has_type type_aaaa (aaaa o ip) = true
has_type type_ns (ns o t) = true
has_type type_soa (soa o f) = true
has_type type_mx (mx o t p) = true
has_type type_txt (txt o ss) = true
has_type type_cname (cname o t) = true
has_type q _ = false

abbrev pub is_ns : Qtype → Bool
is_ns type_ns = true
is_ns _ = false

unfoldable pub matched : Text → Qtype → List Rr → List Rr
unfolding ◌==◌
matched qname qtype [] = []
matched qname qtype (rr ∷ rrs) =
    if owner rr == qname && has_type qtype rr
    then rr ∷ matched qname qtype rrs
    else matched qname qtype rrs

-- The A and AAAA records of a host.
unfoldable pub glue_for : Text → List Rr → List Rr
unfolding ◌==◌
glue_for host [] = []
glue_for host (a o ip ∷ rrs) = if o == host then a o ip ∷ glue_for host rrs else glue_for host rrs
glue_for host (aaaa o ip ∷ rrs) =
    if o == host then aaaa o ip ∷ glue_for host rrs else glue_for host rrs
glue_for host (_ ∷ rrs) = glue_for host rrs

-- The glue of the NS records of the first list, out of the second.
unfoldable pub glue_of : List Rr → List Rr → List Rr
unfolding glue_for
glue_of [] records = []
glue_of (ns o t ∷ rrs) records = glue_for t records ++ glue_of rrs records
glue_of (_ ∷ rrs) records = glue_of rrs records

-- What the loop finds for the parent `name`, if it has NS records.
abbrev pub referral_or : List Rr × List Rr → List Rr → List Rr → List Rr × List Rr
referral_or rest records [] = rest
referral_or rest records (n ∷ more) = (n ∷ more, glue_of (n ∷ more) records)

abbrev pub at_parent : List Rr × List Rr → List Rr → Text → List Rr × List Rr
at_parent rest records [] = ([], [])
at_parent rest records (c ∷ cs) = referral_or rest records (matched (c ∷ cs) type_ns records)

-- Behind each dot a parent is looked up; the loop ends at the last dot.
unfoldable pub find_referral : List Rr → Text → List Rr × List Rr
unfolding matched glue_of
find_referral records [] = ([], [])
find_referral records (c ∷ cs) =
    let rest = find_referral records cs in if eqb c b'.' then at_parent rest records cs else rest

-- m.SetReply(r)
abbrev pub reply_to : Reply
reply_to = record {
  authoritative = false;
  recursion_available = false;
  rcode = success;
  answer = [];
  authority = [];
  additional = [];
}

abbrev pub is_success : Rcode → Bool
is_success success = true
is_success _ = false

abbrev pub refer : List Rr × List Rr → Reply
refer ([], extra) = reply_to
refer (n ∷ more, extra) = record reply_to { authority = n ∷ more; additional = extra }

abbrev pub answer_with : TestServer → Qtype → List Rr → Reply
answer_with srv qtype found = record reply_to {
  authoritative = true;
  recursion_available = srv.options.recursion_available;
  answer = found;
  additional = (if is_ns qtype then glue_of found srv.records else []);
}

abbrev pub reply_with : TestServer → Text → Qtype → List Rr → Reply
reply_with srv qname qtype found =
    if srv.referral && not (is_nil found) && is_ns qtype
    then record reply_to { authority = found; additional = glue_of found srv.records }
    else if srv.referral && is_nil found
    then refer (find_referral srv.records qname)
    else answer_with srv qtype found

-- The message that the handler writes.
unfoldable pub respond : TestServer → Query → Reply
unfolding matched glue_of find_referral
respond srv q =
    if is_success srv.options.rcode
    then reply_with srv q.name q.qtype (matched q.name q.qtype srv.records)
    else record reply_to { rcode = srv.options.rcode }

-- The handler, with the server as it counts the query; none where it writes nothing.
unfoldable pub handle : TestServer → Query → Option Wire × TestServer
unfolding respond
handle srv q =
    let srv' = record srv { query_count = suc srv.query_count } in
    (
      if srv.options.drop
          then none
          else if ltb 0 srv.options.drop_first_n && leb srv'.query_count srv.options.drop_first_n
          then none
          else if srv.options.garbage
          then some random_bytes
          else some (message (respond srv q)),
      srv',
    )
