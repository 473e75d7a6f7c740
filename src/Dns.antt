-- ===== src/Dns.antt =====
-- The DNS messages that the probers read and write, and what stands outside the repository: the
-- client of miekg/dns, the clock, the context of a zone, and the address and name functions.
pub mod Errors
pub mod Queries
pub mod Costs
use dnshealth_exporter.Prelude.{ℕ, Bool, false, Option, some, none, List, ◌∷◌, State}
use dnshealth_exporter.Text.{Text}
use Errors.{Error, Result}

-- The record types that the probers ask for.
pub data Qtype : Type 0 where
  type_a type_aaaa type_ns type_soa type_mx type_txt type_cname : Qtype

-- A question as the source sets it. `recursion_desired` is none where the source leaves the flag
-- as SetQuestion sets it.
pub record Query : Type 0 where
  pub name : Text
  pub qtype : Qtype
  pub recursion_desired : Option Bool

pub record Soa : Type 0 where
  pub mname : Text
  pub serial : ℕ
  pub refresh : ℕ
  pub retry : ℕ
  pub expire : ℕ
  pub minttl : ℕ

-- Resource records, each with its owner name; an address is its String().
pub data Rr : Type 0 where
  a : (owner ip : Text) → Rr
  aaaa : (owner ip : Text) → Rr
  ns : (owner target : Text) → Rr
  mx : (owner target : Text) (preference : ℕ) → Rr
  txt : (owner : Text) (strings : List Text) → Rr
  cname : (owner target : Text) → Rr
  soa : (owner : Text) (fields : Soa) → Rr
  other : (owner : Text) → Rr

abbrev pub owner : Rr → Text
owner (a o ip) = o
owner (aaaa o ip) = o
owner (ns o target) = o
owner (mx o target p) = o
owner (txt o ss) = o
owner (cname o target) = o
owner (soa o f) = o
owner (other o) = o

-- dns.RcodeSuccess, dns.RcodeNameError and all the others.
pub data Rcode : Type 0 where
  success name_error : Rcode
  failure : ℕ → Rcode

pub record Reply : Type 0 where
  pub authoritative : Bool
  pub recursion_available : Bool
  pub rcode : Rcode
  pub answer : List Rr
  pub authority : List Rr
  pub additional : List Rr

abbrev pub Outcome : Type 0
Outcome = Result Reply

-- A question with the recursion flag cleared, and one that leaves it as SetQuestion sets it.
abbrev pub iterative : Text → Qtype → Query
iterative n t = record { name = n; qtype = t; recursion_desired = some false }

abbrev pub question : Text → Qtype → Query
question n t = record { name = n; qtype = t; recursion_desired = none }

-- What one probe has done so far, the latest first.
pub data Event : Type 0 where
  exchanged : (q : Query) (timeout : ℕ) (server : Text) → Event
  clock_read : Event
  context_read : Event

abbrev pub History : Type 0
History = List Event

abbrev pub M : Type 0 → Type 0
M A = State History A

-- The code and the services that are not under the repository, as functions of the history: the
-- answer of a server, the clock in nanoseconds and whether the context has ended may be anything.
-- `root_server` is RootServers[0], and `resolve_address` the value of prober.ResolveAddress.
pub record Net : Type 0 where
  pub exchange : History → Query → ℕ → Text → Outcome
  pub clock : History → ℕ
  pub context_done : History → Bool
  pub fqdn : Text → Text
  pub resolve_address : Text → Text
  pub root_server : Text

module _ (net : Net) where
  -- client.ExchangeContext
  unfoldable pub exchange_context : ℕ → Query → Text → M Outcome
  exchange_context timeout q server h =
      (net.exchange h q timeout server, exchanged q timeout server ∷ h)

  -- time.Now
  unfoldable pub time_now : M ℕ
  time_now h = (net.clock h, clock_read ∷ h)

  -- ctx.Err() != nil
  unfoldable pub context_ended : M Bool
  context_ended h = (net.context_done h, context_read ∷ h)
