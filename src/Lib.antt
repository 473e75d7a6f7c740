-- ===== src/Lib.antt =====
-- dnshealth_exporter probes DNS zones in cycles and shows what it finds as metrics of Prometheus.
-- The background loop of main.go runs a cycle (cycle/runner.go) at each tick. For each zone a cycle
-- takes the delegation from the cache (cache/delegation.go) or walks down from a root server
-- (prober/prober.go), completes the list of name servers, and runs the probers on it. The runner
-- sets its own gauges and counters from all results; main.go builds a registry of the other metrics
-- (prober/registry.go) and serves it over HTTP. The configuration (config/config.go) may be loaded
-- again while cycles run.
--
-- Which file models which part:
--   Text, Text/Decimal, Text/Pad: the functions of package strings, strconv and fmt that the code
--     calls, on strings as lists of bytes; Text/Equality, Text/Maps and
--     Text/Splitting hold lemmas.
--   Dns, Dns/Errors: the messages of miekg/dns that the code reads and writes, errors, IsTimeout
--     (prober/retry.go), and the network with its clock and context; Dns/Queries and Dns/Costs count
--     queries.
--   Retry: ExchangeWithRetry (prober/retry.go).
--   Resolver, Resolver/Delegation, Resolver/Hostnames: WalkDelegation, extractDelegation and
--     ResolveHostnames (prober/prober.go); Resolver/Cname: lookupCNAME (prober/ns_hostname.go).
--   Spf, Spf/Parse: prober/spf.go; Spf/Lookup: countSPFLookups (prober/spf_lookup.go); Spf/Resolve:
--     prober/spf_resolve.go. Dmarc: prober/dmarc.go.
--   Probe and its children: ProbeResult (prober/result.go) and the probers, each in a module named for
--     its file: soa.go, recursion.go, glue.go, ns_hostname.go, ns_classification.go, mx.go and
--     email_auth.go under prober.
--   Cache: cache/delegation.go. Config: config/config.go. Registry: prober/registry.go.
--   Cycle: probeZone (cycle/runner.go) and the list of probers; Cycle/Nameservers:
--     buildInitialNameservers and hostsNeedingAugmentation; Cycle/Aggregate: what Run derives from
--     the results; Cycle/Run: Run; Cycle/Gauges: the metric vectors, as an interface.
--   Cycle/Registration: the metrics that NewRunner (cycle/runner.go) and main.go register;
--     Cycle/Vocabulary: the names of the metrics that the probers report, and in
--     Cycle/Vocabulary/Emitted a network on which they report all of them.
--   Service: main.go, as the state that loop, reload and handlers share, with the calls of
--     applyReloadedConfig in progress; Service/Steps: its steps, of which a call takes one for each
--     of its writes; Service/Reloads: reloads alone and at the same time; Service/Process: the start,
--     the loop with its ticker, and the handlers of all paths.
--   Testutil/Records: testutil/records.go; Testutil/Server, Testutil/Network and Testutil/Probe:
--     testutil/fixture.go, as the handler of a server, the servers of a fixture as a network, and
--     Probe; Testutil/Assertions: testutil/assertions.go.
--   Dashboard/Layout: where demo/dashboard/dashboard.go places the panels; Dashboard/Status: the
--     expressions and descriptions of the status tables (demo/dashboard/panels_status.go) and the
--     colours of their states (helpers.go); Dashboard/Checks: the checks of each table;
--     Dashboard/Records: queries, columns and overrides of the tables of records
--     (panels_records.go); Dashboard/Operator: the queries of the time series (panels_operator.go).
--   Examples: the code on small inputs.
-- The definitions keep the names of the code in lower case with underscores. A loop whose body is
-- more than a line has helpers named for what each part of the body does.
--
-- The network is a parameter, the record Net of Dns: what a server answers, the time, and whether the
-- context has ended are functions of the history of what was done so far, so that no answer is ruled
-- out. A computation passes the history on. Other parameters are the decoder of package yaml, the
-- canonical form that net.ParseIP gives an address, the metric vectors and the registry of
-- prometheus/client_golang (the records VecLib, RegistryLib, RegistryLaws, GatherLaws and
-- PermanentLib, with the documented behaviour of set, add, reset, register and gather as laws), and, for the count of SPF lookups, the fetch.
--
-- Bounds: the loops of the source are bounded, and the recursion counts the rounds that are left: ten
-- rounds of a walk, a budget of three resolutions out of band, sixteen hops for a TXT record, and
-- twenty levels of SPF includes. All other recursion is on lists. No definition needs fuel that the
-- source does not have, so all of them return.
--
-- What is abstracted: case folding and white space are those of ASCII; metric values are natural
-- numbers, and durations natural numbers of nanoseconds, except those of a configuration, which may
-- be negative; log lines are left out; the goroutines of the zones run one after the other, each
-- with a network of its own, which may answer as if the others ran in between; a Go map is an
-- association list, and where the source ranges over a map the order is that of first insertion.
-- The writes of a reload are one step each, and those of different calls come in any order; a write
-- itself is not torn. A crash leaves a process without turns.
-- RootServers has a first element, since main.go assigns no empty list, and a Runner has all its
-- metrics, as NewRunner makes it.
--
-- What is not modelled: flags, listener, log lines and shutdown of main.go, help texts of metrics,
-- the sockets of the test servers, and of the generator of the demo dashboard (demo/dashboard) the
-- descriptions of its other panels, its variables and annotations, units, colours, legends and
-- tooltips, and the JSON, which are input and output or constant data given to the Grafana
-- foundation SDK.
pub mod Prelude
pub mod Text
pub mod Dns
pub mod Retry
pub mod Resolver
pub mod Spf
pub mod Dmarc
pub mod Probe
pub mod Cache
pub mod Config
pub mod Registry
pub mod Cycle
pub mod Service
pub mod Testutil
pub mod Dashboard
pub mod Examples
