-- ===== src/Examples/Settings.antt =====
-- config/config.go, cache/delegation.go and main.go on small inputs.
use dnshealth_exporter.Prelude.{
  leb, if◌then◌else◌, ◌+◌, ℕ, ◌*◌, true, Option, none, some, List, [], ◌∷◌, ◌≡◌, refl,
}
use dnshealth_exporter.Prelude.Int.{pos}
use dnshealth_exporter.Text.{Text, bytes, lookup}
use dnshealth_exporter.Cache.{DelegationCache, get, set, invalidate, new_delegation_cache}
use dnshealth_exporter.Cache.Laws.{Write, stores, invalidates, after, latest, get-after}
use dnshealth_exporter.Config.{Config, ok, err, no_zones, load, second}
use dnshealth_exporter.Config.Laws.{IsLoaded, load-IsLoaded}
use dnshealth_exporter.Resolver.Delegation.{DelegationResult}
use dnshealth_exporter.Service.{
  Service, start, begin_cycle, end_cycle, serve_metrics, metrics, service_unavailable, on_sighup,
  apply_reloaded_config, advance_call, write_stage,
}
use dnshealth_exporter.Service.Steps.{
  begins, ends, signals, Run, here, ◌then_step◌, last_registry, last_config, serve_metrics-last,
  advances,
}
use dnshealth_exporter.Service.Reloads.{
  ConfigOf, AddressesOf, RootsOf, Follows, Run-Follows, reloads-mix,
}

-- Addresses in lower case are canonical, and two spellings of one address are known.
unfoldable canonical : Text → Option Text
unfolding lookup
canonical ip = lookup ip (
    (bytes "192.0.2.1", bytes "192.0.2.1")
    ∷ (bytes "2001:DB8::1", bytes "2001:db8::1")
    ∷ (bytes "2001:db8::1", bytes "2001:db8::1")
    ∷ [])

abbrev written : Config
written = record {
  zones = bytes " example.com " ∷ [];
  probe_interval = pos 0;
  delegation_cache_ttl = pos 0;
  query_timeout = pos 0;
  zone_deadline = pos (10 * second);
  address_overrides = (bytes "2001:DB8::1", bytes "127.0.0.1:5301") ∷ [];
  root_servers = [];
}

abbrev read : Config
read = record {
  zones = bytes "example.com" ∷ [];
  probe_interval = pos (60 * second);
  delegation_cache_ttl = pos (30 * 60 * second);
  query_timeout = pos (5 * second);
  zone_deadline = pos (10 * second);
  address_overrides = (bytes "2001:db8::1", bytes "127.0.0.1:5301") ∷ [];
  root_servers = [];
}

abbrev decode : Text → Option Config
decode file = some written

load_written : load canonical (some []) decode ≡ ok read
unfolding load canonical
load_written = refl

load-IsLoaded_example : IsLoaded canonical written read
load-IsLoaded_example = load-IsLoaded canonical [] decode written read refl load_written

load_without_zones :
    load canonical (some []) (λ f. some (record written { zones = [] })) ≡ err no_zones
unfolding load canonical
load_without_zones = refl

abbrev writes : List (Write ℕ)
writes =
    stores 60 (bytes "a.example") 2
    ∷ stores 50 (bytes "b.example") 1
    ∷ invalidates
    ∷ stores 10 (bytes "b.example") 0
    ∷ []

expires : get (after 5 writes) 66 (bytes "a.example") ≡ none
unfolding get set invalidate new_delegation_cache lookup
expires = refl

get-after_example :
    get (after 5 writes) 65 (bytes "a.example") ≡ (elim (latest (bytes "a.example") writes) [
      | none ↦ none
      | some e ↦ if leb 65 (e.cached_at + 5) then some e.stored else none
    ])
get-after_example = get-after 5 writes 65 (bytes "a.example")

abbrev empty_cache : DelegationCache DelegationResult
empty_cache = record { entries = []; ttl = 5 }

abbrev started : Service ℕ
started = start canonical read empty_cache

abbrev probing : Service ℕ
probing = record started { running = true }

abbrev other : Config
other = record read { zones = bytes "example.org" ∷ [] }

-- A cycle begins, the configuration is loaded again, all its writes are done, and the cycle ends.
abbrev reloaded_service : Service ℕ
reloaded_service = advance_call canonical 0 (
    advance_call canonical 0
      (advance_call canonical 0 (advance_call canonical 0 (on_sighup (ok other) probing))))

abbrev ended : Service ℕ
ended = end_cycle 7 empty_cache reloaded_service

abbrev run : Run canonical started ended
unfolding start begin_cycle on_sighup advance_call apply_reloaded_config write_stage invalidate
run =
    here
    then_step begins refl
    then_step signals (ok other) refl
    then_step advances 0
    then_step advances 0
    then_step advances 0
    then_step advances 0
    then_step ends 7 empty_cache refl refl

unavailable_at_first : serve_metrics started ≡ service_unavailable
unfolding serve_metrics start
unavailable_at_first = refl

serve_metrics-last_example :
    serve_metrics ended
    ≡ (elim (last_registry canonical run) [ none ↦ service_unavailable | some reg ↦ metrics reg ])
serve_metrics-last_example = serve_metrics-last canonical read empty_cache ended run

Run-Follows_example : Follows canonical 5 (last_config canonical read run) ended
unfolding start on_sighup advance_call apply_reloaded_config write_stage end_cycle run
Run-Follows_example = Run-Follows canonical read empty_cache ended run (refl, tt) refl

reloads-mix_example :
    (t : Service ℕ) × (r : Run canonical started t) × (t.applying ≡ [])
    × (last_config canonical read r ≡ read)
    × ConfigOf other t
    × AddressesOf canonical read t
    × RootsOf read t
reloads-mix_example = reloads-mix canonical read other read empty_cache
